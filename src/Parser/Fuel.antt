-- ===== src/Parser/Fuel.antt =====
-- The loop of `parse_add_options` in src/event_parser.cpp ends by itself.
use orda_book.Prelude.{
  ℕ, zero, suc, ◌≤◌, ◌<◌, ◌≡◌, refl, inl, inr, Bool-cases, Bool, true, false, Option, none, some,
  [], ◌∷◌, length, length-drop, arith,
}
use orda_book.Prelude.Lists.{take, drop}
use orda_book.Types.{Event}
use orda_book.Parser.Tokens.{
  Bytes, is_empty, is_delimiter, skip_delimiters, token_length, next_token,
}
use orda_book.Parser.Names.{parse_time_in_force}
use orda_book.Parser.Stream.{time_option, and_then, options_loop}

skip_delimiters-le : (view : Bytes) → length (skip_delimiters view) ≤ length view
unfolding skip_delimiters
skip_delimiters-le [] = omega arith
skip_delimiters-le (ch ∷ view) = elim (Bool-cases (is_delimiter ch)) [
  | inl d ↦ rw d (omega (arith, skip_delimiters-le view))
  | inr d ↦ rw d (omega arith)
]

drop-lt :
    (n : ℕ) (view : Bytes) → is_empty (take n view) ≡ false → length (drop n view) < length view
unfolding take drop
drop-lt zero view f = cc
drop-lt (suc n) [] f = cc
drop-lt (suc n) (ch ∷ view) f = omega (arith, length-drop n view)

next_token-lt :
    (view : Bytes) → is_empty (next_token view).0 ≡ false → length (next_token view).1 < length view
unfolding next_token
next_token-lt view f =
    let input = skip_delimiters view in
    omega (arith, drop-lt (token_length input) input f, skip_delimiters-le view)

and_then-same :
    (o : Option Event) (f g : Event → Option Event)
    → ((event : Event) → f event ≡ g event)
    → and_then o f ≡ and_then o g
and_then-same none f g h = refl
and_then-same (some event) f g h = h event

-- More fuel than bytes changes nothing: the loop has ended before.
pub options_loop_fuel :
    (fuel more : ℕ) (view : Bytes) (saw : Bool) (event : Event)
    → length view < fuel
    → length view < more
    → options_loop fuel view saw event ≡ options_loop more view saw event
unfolding options_loop
options_loop_fuel zero more view saw event b c = absurd (omega arith)
options_loop_fuel (suc fuel) zero view saw event b c = absurd (omega arith)
options_loop_fuel (suc fuel) (suc more) view saw event b c =
    let (option, rest) = next_token view in
    elim (Bool-cases (is_empty option)) [
      | inl ended ↦ rw ended
      | inr token ↦
          let shorter = next_token-lt view token in
          let go : (s : Bool) (e : Event)
              → options_loop fuel rest s e ≡ options_loop more rest s e =
            λ s e. options_loop_fuel fuel more rest s e (omega arith) (omega arith) in
          rw (
            token,
            go saw (record event { post_only = true }),
            go saw event,
            and_then-same (time_option (parse_time_in_force option) saw event) _ _ (go true),
          )
    ]
