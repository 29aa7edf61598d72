-- ===== src/Json/Arrays.antt =====
-- encoding/json: reading back a []string that Marshal wrote.
use micra.Common.{Option, none, some, List, [], ◌∷◌, ◌++◌, ◌≡◌, refl, ◌∙◌, ap, All, length, Holds}
use mathlib.Core.List.{append_assoc, append-nil}
use micra.Json.{
  Runes, Elements, Members, null, text, array, no_elements, element, member, quote, quote_more,
  quote_slice,
}
use micra.Json.Scanner.{
  outside, open_array, close_array, comma, begin, step, Frame, array_frame, object_frame, value,
  first_element, value_read, complete, Stack, take_token, take_tokens, scan,
}
use micra.Json.Slices.{
  Slice, nil_slice, take, strings, fill, refill, decode_slice, texts, slice_value,
}
use micra.Json.Strings.{IsText, scan-quote, scan-step}

-- A []string of UTF-8 strings, or nil.
abbrev pub AreTexts : Option (List Runes) → Type 0
AreTexts ss = Holds (All IsText) ss

-- The rest of an array of strings, and its closing bracket.
scan-quote_more :
    (fs : List Frame) (es : Elements) (ss : List Runes) (rest : Runes)
    → All IsText ss
    → scan outside (value_read, array_frame es ∷ fs) (quote_more ss ++ b']' ∷ rest)
      ≡ scan outside (complete (array (texts es ss)) fs) rest
unfolding quote_more step begin take_tokens take_token
scan-quote_more fs es [] rest h = scan-step _ _ (close_array ∷ []) _ _ b']' rest refl refl
scan-quote_more fs es (s ∷ ss) rest (t, h) =
    scan-step _ _ (comma ∷ []) _ (value, array_frame es ∷ fs) b',' _ refl refl
    ∙ rw (append_assoc (quote s) (quote_more ss) (b']' ∷ rest))
        (scan-quote _ _ s _ t refl ∙ scan-quote_more fs (element es (text s)) ss rest h)

scan-null :
    (ms : Members) (n rest : Runes)
    → scan outside (value, object_frame ms n ∷ []) (b'n' ∷ b'u' ∷ b'l' ∷ b'l' ∷ rest)
      ≡ scan outside (value_read, object_frame (member ms n null) n ∷ []) rest
unfolding scan step begin take_tokens take_token
scan-null ms n rest = refl

-- A []string under the name of a member.
pub scan-quote_slice :
    (ms : Members) (n : Runes) (ss : Option (List Runes)) (rest : Runes)
    → AreTexts ss
    → scan outside (value, object_frame ms n ∷ []) (quote_slice ss ++ rest)
      ≡ scan outside (value_read, object_frame (member ms n (slice_value ss)) n ∷ []) rest
unfolding quote_slice step begin take_tokens take_token
scan-quote_slice ms n none rest h = scan-null ms n rest
scan-quote_slice ms n (some []) rest h =
    scan-step _ _ (open_array ∷ []) _
      (first_element, array_frame no_elements ∷ object_frame ms n ∷ []) b'[' _ refl refl
    ∙ scan-step _ _ (close_array ∷ []) _ _ b']' _ refl refl
scan-quote_slice ms n (some (s ∷ ss)) rest (t, h) =
    let opened : Stack = (first_element, array_frame no_elements ∷ object_frame ms n ∷ []) in
    rw
      (
        append_assoc (quote s ++ quote_more ss) (b']' ∷ []) rest,
        append_assoc (quote s) (quote_more ss) (b']' ∷ rest),
      )
      (scan-step _ _ (open_array ∷ []) _ opened b'[' _ refl refl
        ∙ scan-quote _ _ s _ t refl
        ∙ scan-quote_more (object_frame ms n ∷ []) (element no_elements (text s)) ss rest h)

fill-texts :
    (es : Elements) (ss done : List Runes)
    → fill [] es ≡ some done
    → fill [] (texts es ss) ≡ some (done ++ ss)
unfolding fill
fill-texts es [] done e = e ∙ rw (append-nil done) refl
fill-texts es (s ∷ ss) done e =
    rw (← append_assoc done (s ∷ []) ss)
      (fill-texts (element es (text s)) ss (done ++ s ∷ []) (rw (fill, e) refl))

take-length : (ss rest : List Runes) → take (length ss) (ss ++ rest) ≡ ss
take-length [] rest = refl
take-length (s ∷ ss) rest = ap (λ (r : List Runes). s ∷ r) (take-length ss rest)

strings-refill : (ss : List Runes) → strings (refill [] ss) ≡ some ss
strings-refill [] = refl
strings-refill (s ∷ ss) = ap (λ (r : List Runes). some (s ∷ r)) (take-length ss _)

-- What was written is what is stored.
pub decode_slice-slice_value :
    (ss : Option (List Runes))
    → (t : Slice) × (decode_slice (slice_value ss) nil_slice ≡ some t) × (strings t ≡ ss)
unfolding decode_slice fill
decode_slice-slice_value none = (nil_slice, refl, refl)
decode_slice-slice_value (some ss) =
    let filled : fill [] (texts no_elements ss) ≡ some ss = fill-texts no_elements ss [] refl in
    (refill [] ss, rw (decode_slice, filled) refl, strings-refill ss)
