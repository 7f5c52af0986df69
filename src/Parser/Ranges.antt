-- ===== src/Parser/Ranges.antt =====
-- Every event that src/event_parser.cpp hands on is in the range of its types, and asks for a policy
-- that there is.
use orda_book.Prelude.{
  ℕ, ◌^◌, ◌<◌, ◌≡◌, refl, inl, inr, Option-cases, if_cases, if◌then◌else◌, not, false, Option, none,
  some, List, [], ◌∷◌, All, arith,
}
use orda_book.Prelude.Int.{ℤ}
use orda_book.Types.{Event}
use orda_book.Engine.{increment}
use orda_book.Codec.Records.{IsInt64, Fits}
use orda_book.Parser.Tokens.{
  Bytes, codes, same, is_empty, is_blank_or_comment, next_token, parse_unsigned, parse_signed,
}
use orda_book.Parser.Names.{parse_side}
use orda_book.Parser.Numbers.{parse_unsigned_range, parse_signed_range}
use orda_book.Parser.Stream
use orda_book.Parser.Stream.{
  default_event, end_options, time_option, and_then, options_loop, parse_add_options, Line, skipped,
  parsed, refused, parse_price, finish_add, add_numbers, parse_add, cancel_number, parse_cancel,
  modify_numbers, parse_modify, parse_line,
}
use orda_book.Parser.Lines.{outcome, outcome_of}
use orda_book.Parser.Policies.{IsBegun, IsSound, Gives, options_loop-IsSound}

abbrev pub LineGives : (Event → Type 0) → Line → Type 0
LineGives P (parsed event) = P event
LineGives P _ = Unit {0}

finish_add-IsSound :
    (view : Bytes) (o : Option Event)
    → Gives (IsBegun false) o
    → LineGives IsSound (finish_add view o)
unfolding finish_add parse_add_options
finish_add-IsSound view none b = tt
finish_add-IsSound view (some event) b = lift _ (options_loop-IsSound _ view false event b)
  where
    lift :
        (o : Option Event)
        → Gives IsSound o
        → LineGives IsSound
            (elim o [ none ↦ refused Stream.invalid_add_options | some event ↦ parsed event ])
    lift none s = tt
    lift (some event) s = s

parse_price-IsBegun :
    (token : Bytes) (event : Event)
    → IsBegun false event
    → event.post_only ≡ false
    → Gives (IsBegun false) (parse_price token event)
unfolding parse_price
parse_price-IsBegun token event b p =
    if_cases (Gives (IsBegun false)) (same token (codes "MARKET")) _ _ (λ _. ground arith)
      (λ _. elim (Option-cases (parse_signed token)) [
        | inl e ↦ rw e tt
        | inr (price, e) ↦ rw e (ground (arith, parse_signed_range token price e))
      ])

default_event-Fits : (n : ℕ) → Fits (default_event (increment n))
unfolding increment
default_event-Fits n = ground arith

-- What the readers of numbers give is in range.
abbrev Ranges : {A : Type 0} → (A → Type 0) → Option A → Type 0
Ranges P none = Unit {0}
Ranges P (some a) = P a

unsigned-Ranges : (token : Bytes) → Ranges (λ n. n < 2 ^ 64) (parse_unsigned token)
unsigned-Ranges token = elim (Option-cases (parse_unsigned token)) [
  | inl e ↦ rw e tt
  | inr (n, e) ↦ rw e (parse_unsigned_range token n e)
]

signed-Ranges : (token : Bytes) → Ranges IsInt64 (parse_signed token)
signed-Ranges token = elim (Option-cases (parse_signed token)) [
  | inl e ↦ rw e tt
  | inr (n, e) ↦ rw e (parse_signed_range token n e)
]

add_numbers-IsSound :
    (order_id : Option ℕ) (qty : Option ℤ) (side price_or_type view : Bytes) (n : ℕ)
    → Ranges (λ n. n < 2 ^ 64) order_id
    → Ranges IsInt64 qty
    → LineGives IsSound
        (add_numbers order_id qty side price_or_type view (default_event (increment n)))
unfolding add_numbers increment
add_numbers-IsSound none qty side price_or_type view n i q = tt
add_numbers-IsSound (some id) none side price_or_type view n i q = tt
add_numbers-IsSound (some id) (some quantity) side price_or_type view n i q =
    elim (parse_side side)
      as (λ o. LineGives IsSound (elim o [
        | none ↦ refused Stream.invalid_side
        | some side ↦ finish_add view (
            parse_price price_or_type
              (record (default_event (increment n)) { order_id = id; qty = quantity; side = side }))
      ])) [
        | none ↦ tt
        | some s ↦ finish_add-IsSound view _ (
            parse_price-IsBegun price_or_type
              (record (default_event (increment n)) { order_id = id; qty = quantity; side = s })
              (ground (arith, i, q)) refl)
      ]

parse_add-IsSound :
    (view : Bytes) (n : ℕ) → LineGives IsSound (parse_add view (default_event (increment n)))
unfolding parse_add
parse_add-IsSound view n = add_numbers-IsSound _ _ _ _ _ n (unsigned-Ranges _) (signed-Ranges _)

cancel_number-IsSound :
    (order_id : Option ℕ) (view : Bytes) (n : ℕ)
    → Ranges (λ n. n < 2 ^ 64) order_id
    → LineGives IsSound (cancel_number order_id view (default_event (increment n)))
unfolding cancel_number increment
cancel_number-IsSound none view n i = tt
cancel_number-IsSound (some id) view n i =
    if_cases (LineGives IsSound) (not (is_empty (next_token view).0)) _ _ (λ _. tt)
      (λ _. ground (arith, i))

parse_cancel-IsSound :
    (view : Bytes) (n : ℕ) → LineGives IsSound (parse_cancel view (default_event (increment n)))
unfolding parse_cancel
parse_cancel-IsSound view n = cancel_number-IsSound _ _ n (unsigned-Ranges _)

modify_numbers-IsSound :
    (order_id : Option ℕ) (new_price new_qty : Option ℤ) (view : Bytes) (n : ℕ)
    → Ranges (λ n. n < 2 ^ 64) order_id
    → Ranges IsInt64 new_price
    → Ranges IsInt64 new_qty
    → LineGives IsSound
        (modify_numbers order_id new_price new_qty view (default_event (increment n)))
unfolding modify_numbers increment
modify_numbers-IsSound none price qty view n i p q = tt
modify_numbers-IsSound (some id) none qty view n i p q = tt
modify_numbers-IsSound (some id) (some price) none view n i p q = tt
modify_numbers-IsSound (some id) (some price) (some qty) view n i p q =
    if_cases (LineGives IsSound) (not (is_empty (next_token view).0)) _ _ (λ _. tt)
      (λ _. ground (arith, i, p, q))

parse_modify-IsSound :
    (view : Bytes) (n : ℕ) → LineGives IsSound (parse_modify view (default_event (increment n)))
unfolding parse_modify
parse_modify-IsSound view n =
    modify_numbers-IsSound _ _ _ _ n (unsigned-Ranges _) (signed-Ranges _) (signed-Ranges _)

parse_line-IsSound : (n : ℕ) (line : Bytes) → LineGives IsSound (parse_line (increment n) line)
unfolding parse_line
parse_line-IsSound n line =
    let (command, view) = next_token line in
    let event = default_event (increment n) in
    let P = LineGives IsSound in
    let unknown = refused Stream.unknown_command in
    let modify = if same command (codes "MODIFY") then parse_modify view event else unknown in
    let cancel = if same command (codes "CANCEL") then parse_cancel view event else modify in
    let add = if same command (codes "ADD") then parse_add view event else cancel in
    if_cases P (is_blank_or_comment line) skipped add (λ _. tt)
      (λ _.
        if_cases P (same command (codes "ADD")) (parse_add view event) cancel
          (λ _. parse_add-IsSound view n)
          (λ _.
            if_cases P (same command (codes "CANCEL")) (parse_cancel view event) modify
              (λ _. parse_cancel-IsSound view n)
              (λ _.
                if_cases P (same command (codes "MODIFY")) (parse_modify view event) unknown
                  (λ _. parse_modify-IsSound view n) (λ _. tt))))

pub outcome-IsSound : (n : ℕ) (lines : List Bytes) → All IsSound (outcome n lines).0
unfolding outcome
outcome-IsSound n [] = tt
outcome-IsSound n (line ∷ lines) =
    go (parse_line (increment n) line) (parse_line-IsSound n line)
      (outcome-IsSound (increment n) lines)
  where
    go :
        (l : Line)
        → LineGives IsSound l
        → All IsSound (outcome (increment n) lines).0
        → All IsSound (outcome_of (increment n) lines l).0
    go skipped s rest = rest
    go (refused message) s rest = tt
    go (parsed event) s rest = (s, rest)
