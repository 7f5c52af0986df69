-- ===== src/Parser/Policies.antt =====
-- The options of an add in src/event_parser.cpp ask for a policy that there is.
use orda_book.Prelude.{
  ℕ, zero, suc, ◌≡◌, if_cases, ◌&&◌, ◌||◌, Bool, true, false, Option, none, some, arith,
}
use orda_book.Types.{Event, OrderType, TimeInForce}
use orda_book.Engine.{is_market, is_good_til_cancel, is_fill_or_kill}
use orda_book.Codec.Records.{Fits}
use orda_book.Parser.Tokens.{Bytes, codes, same, is_empty, next_token}
use orda_book.Parser.Names.{parse_time_in_force}
use orda_book.Parser.Stream.{end_options, time_option, and_then, options_loop}

-- A market order neither rests nor waits, and a post-only order is not fill-or-kill.
pub record IsPolicy (event : Event) : Type 0 where
  pub market_takes :
      is_market event.order_type && (event.post_only || is_good_til_cancel event.time_in_force)
      ≡ false
  pub post_only_makes : event.post_only && is_fill_or_kill event.time_in_force ≡ false

-- What the loop over the options keeps.
pub record IsBegun (saw_time_in_force : Bool) (event : Event) : Type 0 where
  pub fits : Fits event
  pub no_market : is_market event.order_type && event.post_only ≡ false
  pub seen :
      saw_time_in_force && (is_market event.order_type && is_good_til_cancel event.time_in_force)
      ≡ false

pub record IsSound (event : Event) : Type 0 where
  pub fits : Fits event
  pub policy : IsPolicy event

with_policy :
    (event : Event) (type : OrderType) (time_in_force : TimeInForce) (post_only : Bool)
    → Fits event
    → Fits
        (record event { order_type = type; time_in_force = time_in_force; post_only = post_only })
with_policy event type time_in_force post_only f = record {
  order_id_fits = f.order_id_fits;
  price_fits = f.price_fits;
  qty_fits = f.qty_fits;
  new_price_fits = f.new_price_fits;
  new_qty_fits = f.new_qty_fits;
  line_number_fits = f.line_number_fits;
}

abbrev pub Gives : (Event → Type 0) → Option Event → Type 0
Gives P none = Unit {0}
Gives P (some event) = P event

and_then-Gives :
    (P Q : Event → Type 0) (o : Option Event) (f : Event → Option Event)
    → Gives P o
    → ((event : Event) → P event → Gives Q (f event))
    → Gives Q (and_then o f)
and_then-Gives P Q none f p q = tt
and_then-Gives P Q (some event) f p q = q event p

end_options-IsSound :
    (saw : Bool) (event : Event) → IsBegun saw event → Gives IsSound (end_options saw event)
unfolding end_options
end_options-IsSound saw event b = ground arith

time_option-IsBegun :
    (time_in_force : Option TimeInForce) (saw : Bool) (event : Event)
    → IsBegun saw event
    → Gives (IsBegun true) (time_option time_in_force saw event)
unfolding time_option
time_option-IsBegun none saw event b = tt
time_option-IsBegun (some t) saw event b = ground arith

posted-IsBegun :
    (saw : Bool) (event : Event)
    → IsBegun saw event
    → is_market event.order_type ≡ false
    → IsBegun saw (record event { post_only = true })
posted-IsBegun saw event b l = ground arith

pub options_loop-IsSound :
    (fuel : ℕ) (view : Bytes) (saw : Bool) (event : Event)
    → IsBegun saw event
    → Gives IsSound (options_loop fuel view saw event)
unfolding options_loop
options_loop-IsSound zero view saw event b = tt
options_loop-IsSound (suc fuel) view saw event b =
    let (option, rest) = next_token view in
    let go : (e : Event) (s : Bool) → IsBegun s e → Gives IsSound (options_loop fuel rest s e) =
      λ e s. options_loop-IsSound fuel rest s e in
    if_cases (Gives IsSound) (is_empty option) _ _ (λ _. end_options-IsSound saw event b)
      (λ _.
        if_cases (Gives IsSound) (same option (codes "POST_ONLY")) _ _
          (λ _.
            if_cases (Gives IsSound)
              (is_market event.order_type || is_fill_or_kill event.time_in_force) _ _ (λ _. tt)
              (λ l. go _ saw (posted-IsBegun saw event b (ground arith))))
          (λ _.
            if_cases (Gives IsSound) (same option (codes "LIMIT")) _ _
              (λ _.
                if_cases (Gives IsSound) (is_market event.order_type) _ _ (λ _. tt)
                  (λ _. go _ saw b))
              (λ _.
                and_then-Gives (IsBegun true) IsSound
                  (time_option (parse_time_in_force option) saw event) (options_loop fuel rest true)
                  (time_option-IsBegun (parse_time_in_force option) saw event b) (λ e. go e true))))
