-- ===== src/Parser/Options.antt =====
-- The options of an ADD line, with any delimiters between them, are read back by src/event_parser.cpp.
use orda_book.Prelude.{
  ℕ, zero, suc, ◌≤◌, ◌≡◌, refl, ◌∙◌, ◌&&◌, ◌||◌, Bool, true, false, some, List, [], ◌∷◌, ◌++◌,
  length, length-append, All, arith,
}
use orda_book.Prelude.Lists.{take, drop}
use orda_book.Types.{Event, TimeInForce, good_til_cancel, immediate_or_cancel, fill_or_kill}
use orda_book.Engine.{is_market, is_good_til_cancel, is_fill_or_kill}
use orda_book.Parser.Tokens.{
  Bytes, codes, same, is_empty, is_delimiter, skip_delimiters, token_length, next_token,
}
use orda_book.Parser.Names.{time_in_force_to_string, parse_time_in_force}
use orda_book.Parser.Stream.{end_options, time_option, options_loop, parse_add_options}
use orda_book.Parser.Written.{time-IsWord, parse_time_in_force-time_in_force_to_string}
use orda_book.Parser.Words.{IsDelimiter, IsWord, spaced, next_token-spaced}
use orda_book.Parser.Commands.{post_words}

pub post_only-IsWord : IsWord (codes "POST_ONLY")
unfolding is_delimiter
post_only-IsWord = ground arith

pub market-IsWord : IsWord (codes "MARKET")
unfolding is_delimiter
market-IsWord = ground arith

time_options :
    (time_in_force : TimeInForce) (event : Event)
    → (is_market event.order_type && is_good_til_cancel time_in_force) ≡ false
    → time_option (parse_time_in_force (time_in_force_to_string time_in_force)) false event
      ≡ some (record event { time_in_force = time_in_force })
unfolding time_option
time_options time_in_force event m =
    rw (parse_time_in_force-time_in_force_to_string time_in_force, m)

-- The name of a time in force is no other option.
time_plain :
    (t : TimeInForce)
    → (is_empty (time_in_force_to_string t) ≡ false)
      × (same (time_in_force_to_string t) (codes "POST_ONLY") ≡ false)
      × (same (time_in_force_to_string t) (codes "LIMIT") ≡ false)
      × (length (time_in_force_to_string t) ≡ 3)
unfolding same time_in_force_to_string
time_plain good_til_cancel = (refl, refl, refl, refl)
time_plain immediate_or_cancel = (refl, refl, refl, refl)
time_plain fill_or_kill = (refl, refl, refl, refl)

pub nil_token : next_token [] ≡ ([], [])
unfolding next_token skip_delimiters token_length take drop
nil_token = refl

module _ (first : ℕ) (more : Bytes) (first_delimits : IsDelimiter first)
    (delimits : All IsDelimiter more) where
  abbrev line : List Bytes → Bytes
  line = spaced first more first_delimits delimits

  -- One word of the options.
  take_word :
      (word : Bytes) (words : List Bytes)
      → IsWord word
      → next_token (line (word ∷ words)) ≡ (word, line words)
  take_word = next_token-spaced first more first_delimits delimits

  -- One word of the options.
  options-time :
      (fuel : ℕ) (time_in_force : TimeInForce) (words : List Bytes) (event : Event)
      → (is_market event.order_type && is_good_til_cancel time_in_force) ≡ false
      → options_loop (suc fuel) (line (time_in_force_to_string time_in_force ∷ words)) false event
        ≡ options_loop fuel (line words) true (record event { time_in_force = time_in_force })
  unfolding options_loop
  options-time fuel time_in_force words event m =
      let (filled, post, limit, _) = time_plain time_in_force in
      rw (
        take_word (time_in_force_to_string time_in_force) words (time-IsWord time_in_force),
        filled,
        post,
        limit,
        time_options time_in_force event m,
      )

  options-post :
      (fuel : ℕ) (words : List Bytes) (saw : Bool) (event : Event)
      → (is_market event.order_type || is_fill_or_kill event.time_in_force) ≡ false
      → options_loop (suc fuel) (line (codes "POST_ONLY" ∷ words)) saw event
        ≡ options_loop fuel (line words) saw (record event { post_only = true })
  unfolding options_loop same
  options-post fuel words saw event m = rw (take_word (codes "POST_ONLY") words post_only-IsWord, m)

  options-nil :
      (fuel : ℕ) (saw : Bool) (event : Event)
      → options_loop (suc fuel) [] saw event ≡ end_options saw event
  unfolding options_loop
  options-nil fuel saw event = rw nil_token

  options_written :
      (fuel : ℕ) (t : TimeInForce) (post_only : Bool) (event : Event)
      → 2 ≤ fuel
      → (is_market event.order_type && (post_only || is_good_til_cancel t)) ≡ false
      → (post_only && is_fill_or_kill t) ≡ false
      → event.post_only ≡ false
      → options_loop
          (suc fuel)
          (line (time_in_force_to_string t ∷ post_words post_only))
          false
          event
        ≡ some (record event { time_in_force = t; post_only = post_only })
  options_written zero t post_only event b m p e = absurd (omega arith)
  options_written (suc zero) t post_only event b m p e = absurd (omega arith)
  options_written (suc (suc f)) t true event b m p e =
      options-time (suc (suc f)) t (post_words true) event (ground arith)
      ∙ options-post (suc f) [] true (record event { time_in_force = t }) (ground arith)
      ∙ options-nil f true (record event { time_in_force = t; post_only = true })
      ∙ unfold end_options in ground arith
  options_written (suc (suc f)) t false event b m p e =
      options-time (suc (suc f)) t [] event (ground arith)
      ∙ options-nil (suc f) true (record event { time_in_force = t })
      ∙ unfold end_options in ground arith

  pub parse_add_options-written :
      (t : TimeInForce) (post_only : Bool) (event : Event)
      → (is_market event.order_type && (post_only || is_good_til_cancel t)) ≡ false
      → (post_only && is_fill_or_kill t) ≡ false
      → event.post_only ≡ false
      → parse_add_options (line (time_in_force_to_string t ∷ post_words post_only)) event
        ≡ some (record event { time_in_force = t; post_only = post_only })
  unfolding parse_add_options
  parse_add_options-written t post_only event m p e =
      let (_, _, _, three) = time_plain t in
      let rest = line (post_words post_only) in
      options_written _ t post_only event
        (omega (
          arith,
          length-append more (time_in_force_to_string t ++ rest),
          length-append (time_in_force_to_string t) rest,
        ))
        m p e
