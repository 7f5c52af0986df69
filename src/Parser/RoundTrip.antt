-- ===== src/Parser/RoundTrip.antt =====
-- Commands written with any delimiters between their words are read back by src/event_parser.cpp.
use orda_book.Prelude.{
  ℕ, ◌≡◌, refl, ◌∙◌, if◌then◌else◌, Bool, false, some, List, [], ◌∷◌, ◌++◌, All, arith,
}
use orda_book.Prelude.Int.{ℤ}
use orda_book.Types.{Side, Event, market, TimeInForce}
use orda_book.Codec.Records.{IsInt64}
use orda_book.Parser.Tokens.{
  Bytes, codes, same, is_empty, starts_comment, is_delimiter, skip_delimiters, is_blank_or_comment,
  next_token,
}
use orda_book.Parser.Names.{side_to_string}
use orda_book.Parser.Stream.{
  default_event, parse_add_options, Message, skipped, parsed, refused, parse_price, finish_add,
  add_numbers, parse_add, cancel_number, parse_cancel, modify_numbers, parse_modify, parse_line,
}
use orda_book.Parser.Decimal.{
  decimal, signed_decimal, parse_unsigned-decimal, parse_signed-signed_decimal,
}
use orda_book.Parser.Written.{
  decimal-IsWord, signed_decimal-IsWord, signed_decimal-ne-market, side-IsWord,
  parse_side-side_to_string,
}
use orda_book.Parser.Words.{
  IsDelimiter, IsWord, skip-delimiters, skip_word, spaced, next_token-word, next_token-spaced,
}
use orda_book.Parser.Options.{parse_add_options-written, market-IsWord, nil_token}
use orda_book.Parser.Commands.{
  Command, add_limit, add_market, cancel, modify, comment, head_word, more_words, meaning,
  IsCommand,
}

is_empty-word : (word rest : Bytes) → is_empty word ≡ false → is_empty (word ++ rest) ≡ false
is_empty-word [] rest f = cc
is_empty-word (ch ∷ word) rest f = refl

starts_comment-word :
    (word rest : Bytes)
    → is_empty word ≡ false
    → starts_comment word ≡ false
    → starts_comment (word ++ rest) ≡ false
starts_comment-word [] rest f c = cc
starts_comment-word (ch ∷ word) rest f c = c

add-IsWord : IsWord (codes "ADD")
unfolding is_delimiter
add-IsWord = ground arith

cancel-IsWord : IsWord (codes "CANCEL")
unfolding is_delimiter
cancel-IsWord = ground arith

modify-IsWord : IsWord (codes "MODIFY")
unfolding is_delimiter
modify-IsWord = ground arith

comment_line :
    (n : ℕ) (gap text : Bytes) → All IsDelimiter gap → parse_line n (gap ++ (b'#' ∷ text)) ≡ skipped
unfolding parse_line is_blank_or_comment
comment_line n gap text d =
    let e : skip_delimiters (gap ++ (b'#' ∷ text)) ≡ b'#' ∷ text =
      skip-delimiters gap (b'#' ∷ text) d ∙ unfold skip_delimiters is_delimiter in refl in
    rw e

add_numbers-side :
    (id : ℕ) (qty : ℤ) (side : Side) (price_or_type view : Bytes) (event : Event)
    → add_numbers (some id) (some qty) (side_to_string side) price_or_type view event
      ≡ finish_add view
          (parse_price price_or_type (record event { order_id = id; qty = qty; side = side }))
unfolding add_numbers
add_numbers-side id qty side price_or_type view event =
    rw (parse_side-side_to_string side, add_numbers)

parse_price-signed_decimal :
    (price : ℤ) (event : Event)
    → IsInt64 price
    → parse_price (signed_decimal price) event ≡ some (record event { price = price })
unfolding parse_price
parse_price-signed_decimal price event p =
    rw (signed_decimal-ne-market price, parse_signed-signed_decimal price p)

finish_add-options :
    (view : Bytes) (event done : Event)
    → parse_add_options view event ≡ some done
    → finish_add view (some event) ≡ parsed done
unfolding finish_add
finish_add-options view event done e = rw (e, finish_add)

module _ (first : ℕ) (more : Bytes) (first_delimits : IsDelimiter first)
    (delimits : All IsDelimiter more) where
  abbrev words_of : List Bytes → Bytes
  words_of = spaced first more first_delimits delimits

  take_word :
      (word : Bytes) (words : List Bytes)
      → IsWord word
      → next_token (words_of (word ∷ words)) ≡ (word, words_of words)
  take_word = next_token-spaced first more first_delimits delimits

  parse_add-limit :
      (n id : ℕ) (side : Side) (price qty : ℤ) (t : TimeInForce) (post_only : Bool)
      → IsCommand (add_limit id side price qty t post_only)
      → parse_add
          (words_of (more_words (add_limit id side price qty t post_only)))
          (default_event n)
        ≡ meaning n (add_limit id side price qty t post_only)
  unfolding parse_add more_words meaning
  parse_add-limit n id side price qty t post_only (i, p, q, o) =
      rw
        (
          take_word (decimal id) _ (decimal-IsWord id),
          take_word (side_to_string side) _ (side-IsWord side),
          take_word (signed_decimal price) _ (signed_decimal-IsWord price),
          take_word (signed_decimal qty) _ (signed_decimal-IsWord qty),
          parse_unsigned-decimal id i,
          parse_signed-signed_decimal qty q,
          add_numbers-side id qty side,
          parse_price-signed_decimal price
              (record (default_event n) { order_id = id; qty = qty; side = side }) p,
        )
        (finish_add-options _ _ _ (
          parse_add_options-written first more first_delimits delimits t post_only
            (record (default_event n) { order_id = id; qty = qty; side = side; price = price }) refl
            o refl))

  parse_add-market :
      (n id : ℕ) (side : Side) (qty : ℤ) (t : TimeInForce)
      → IsCommand (add_market id side qty t)
      → parse_add (words_of (more_words (add_market id side qty t))) (default_event n)
        ≡ meaning n (add_market id side qty t)
  unfolding parse_add more_words meaning parse_price same
  parse_add-market n id side qty t (i, q, o) =
      rw
        (
          take_word (decimal id) _ (decimal-IsWord id),
          take_word (side_to_string side) _ (side-IsWord side),
          take_word (codes "MARKET") _ market-IsWord,
          take_word (signed_decimal qty) _ (signed_decimal-IsWord qty),
          parse_unsigned-decimal id i,
          parse_signed-signed_decimal qty q,
          add_numbers-side id qty side,
        )
        (finish_add-options _ _ _ (
          parse_add_options-written first more first_delimits delimits t false
            (record (default_event n) {
              order_id = id;
              qty = qty;
              side = side;
              order_type = market;
            })
            o refl refl))

  parse_cancel-written :
      (n id : ℕ)
      → IsCommand (cancel id)
      → parse_cancel (words_of (more_words (cancel id))) (default_event n) ≡ meaning n (cancel id)
  unfolding parse_cancel more_words meaning cancel_number
  parse_cancel-written n id i =
      rw (take_word (decimal id) [] (decimal-IsWord id), parse_unsigned-decimal id i, nil_token)

  parse_modify-written :
      (n id : ℕ) (price qty : ℤ)
      → IsCommand (modify id price qty)
      → parse_modify (words_of (more_words (modify id price qty))) (default_event n)
        ≡ meaning n (modify id price qty)
  unfolding parse_modify more_words meaning modify_numbers
  parse_modify-written n id price qty (i, p, q) = rw (
    take_word (decimal id) _ (decimal-IsWord id),
    take_word (signed_decimal price) _ (signed_decimal-IsWord price),
    take_word (signed_decimal qty) [] (signed_decimal-IsWord qty),
    parse_unsigned-decimal id i,
    parse_signed-signed_decimal price p,
    parse_signed-signed_decimal qty q,
    nil_token,
  )

  -- A line of text, with delimiters before its first word.
  abbrev pub text_line : Bytes → Command → Bytes
  text_line gap command = gap ++ (head_word command ++ words_of (more_words command))

  -- The command of a line that is neither blank nor a comment.
  command_line :
      (n : ℕ) (gap word : Bytes) (words : List Bytes)
      → All IsDelimiter gap
      → IsWord word
      → starts_comment word ≡ false
      → parse_line n (gap ++ (word ++ words_of words)) ≡ (
          if same word (codes "ADD")
          then parse_add (words_of words) (default_event n)
          else if same word (codes "CANCEL")
          then parse_cancel (words_of words) (default_event n)
          else if same word (codes "MODIFY")
          then parse_modify (words_of words) (default_event n)
          else refused Message.unknown_command)
  unfolding parse_line is_blank_or_comment
  command_line n gap word words d w c =
      let rest = words_of words in
      let filled : is_empty (word ++ rest) ≡ false = is_empty-word word rest w.filled in
      let plain : starts_comment (word ++ rest) ≡ false =
        starts_comment-word word rest w.filled c in
      rw (
        next_token-word first more first_delimits delimits gap word words d w,
        skip-delimiters gap (word ++ rest) d,
        skip_word word rest w,
        filled,
        plain,
      )

  pub parse_line-text_line :
      (n : ℕ) (gap : Bytes) (command : Command)
      → All IsDelimiter gap
      → IsCommand command
      → parse_line n (text_line gap command) ≡ meaning n command
  parse_line-text_line n gap (add_limit id side price qty t post_only) d c =
      command_line n gap (codes "ADD") _ d add-IsWord refl
      ∙ unfold same in parse_add-limit n id side price qty t post_only c
  parse_line-text_line n gap (add_market id side qty t) d c =
      command_line n gap (codes "ADD") _ d add-IsWord refl
      ∙ unfold same in parse_add-market n id side qty t c
  parse_line-text_line n gap (cancel id) d c =
      command_line n gap (codes "CANCEL") _ d cancel-IsWord refl
      ∙ unfold same in parse_cancel-written n id c
  parse_line-text_line n gap (modify id price qty) d c =
      command_line n gap (codes "MODIFY") _ d modify-IsWord refl
      ∙ unfold same in parse_modify-written n id price qty c
  parse_line-text_line n gap (comment text) d c = unfold meaning in comment_line n gap _ d
