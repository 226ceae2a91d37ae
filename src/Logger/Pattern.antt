-- ===== src/Logger/Pattern.antt =====
-- The patterns that src/logger/Formatter.h documents: pieces of literal text with an item behind, and
-- what `ParseFormatter` makes of them and of the text behind the last item.
use ttserver.Base.{
  ℕ, ◌≡◌, refl, subst, ap, Bool, true, false, ◌||◌, ◌&&◌, not, List, [], ◌∷◌, ◌++◌, append-nil,
  append_assoc, ◌==◌, arith, Bool-cases, inl, inr,
}
use ttserver.Logger.Format.{
  Text, Item, Parsed, flush, scan_format, time_format, is_bound, parse_item, parse_percent,
  parse_char, parse_loop, parse_formatter, pushed, starts_with,
}
use ttserver.Logger.Parse.{parse_from, parse_from-cons}

-- Literal text, and the item behind it: its key, and the date's format of a key `d`.
pub record Piece : Type 0 where
  pub literal : Text
  pub key : ℕ
  pub date_format : Text

abbrev pub braces : Text → Text
braces [] = []
braces (c ∷ s) = b'{' ∷ (c ∷ s ++ b'}' ∷ [])

-- How the piece is written in a pattern.
abbrev pub print_piece : Piece → Text
print_piece p = p.literal ++ (b'%' ∷ p.key ∷ braces p.date_format)

unfoldable pub print_pieces : List Piece → Text → Text
print_pieces [] trail = trail
print_pieces (p ∷ ps) trail = print_piece p ++ print_pieces ps trail

unfoldable pub has : ℕ → Text → Bool
has c [] = false
has c (d ∷ s) = (d == c) || has c s

abbrev pub is_nil : Text → Bool
is_nil [] = true
is_nil (_ ∷ _) = false

-- The literal text has no `%`, the key is bound, only `d` has a format, which has no `}`, and a bare
-- `d` has no `{` behind it.
unfoldable pub IsPiece : Piece → Text → Type 0
IsPiece p rest =
    (has b'%' p.literal ≡ false)
    × (is_bound p.key ≡ true)
    × (((p.key == b'd') || is_nil p.date_format) ≡ true)
    × (has b'}' p.date_format ≡ false)
    × ((is_nil p.date_format && starts_with b'{' rest) ≡ false)

unfoldable pub ArePieces : List Piece → Text → Type 0
ArePieces [] trail = has b'%' trail ≡ false
ArePieces (p ∷ ps) trail = IsPiece p (print_pieces ps trail) × ArePieces ps trail

-- The items of a piece.
abbrev pub items_of : Text → ℕ → Text → List Item
items_of [] key fmt = record { key = key; ex_info = fmt } ∷ []
items_of (t ∷ ts) key fmt =
    record { key = b's'; ex_info = t ∷ ts } ∷ record { key = key; ex_info = fmt } ∷ []

unfoldable pub all_items : List Piece → List Item
all_items [] = []
all_items (p ∷ ps) = items_of p.literal p.key p.date_format ++ all_items ps

-- Literal text is gathered.
parse_from-literal :
    (s rest tem : Text) (items : List Item)
    → has b'%' s ≡ false
    → parse_from (s ++ rest) (record { tem_str = tem; items = items })
      ≡ parse_from rest (record { tem_str = tem ++ s; items = items })
unfolding has parse_char
parse_from-literal [] rest tem items h = rw (append-nil tem) refl
parse_from-literal (c ∷ s) rest tem items h =
    let other : (c == b'%') ≡ false = ground arith in
    rw (parse_from-cons c (s ++ rest) (record { tem_str = tem; items = items }), other)
      (rw (← append_assoc tem (c ∷ []) s)
        (parse_from-literal s rest (tem ++ c ∷ []) items (ground arith)))

done_at_end :
    (s rest : Text) (done : Bool)
    → (is_nil s && not (done || starts_with b'}' (s ++ b'}' ∷ rest))) ≡ false
done_at_end [] rest true = refl
done_at_end [] rest false = refl
done_at_end (c ∷ s) rest done = refl

scan_format-found :
    (s rest fmt : Text) (done : Bool)
    → has b'}' s ≡ false
    → (is_nil s && not done) ≡ false
    → scan_format (s ++ b'}' ∷ rest) fmt done ≡ (fmt ++ s, true, b'}' ∷ rest)
unfolding has scan_format
scan_format-found [] rest fmt done h n =
    let e : done ≡ true = ground arith in rw (e, append-nil fmt) refl
scan_format-found (c ∷ s) rest fmt done h n =
    let other : (c == b'}') ≡ false = ground arith in
    let rec =
      scan_format-found s rest (fmt ++ c ∷ []) (done || starts_with b'}' (s ++ b'}' ∷ rest))
        (ground arith) (done_at_end s rest done) in
    rw (other, ← append_assoc fmt (c ∷ []) s) rec

time_format-braces :
    (fmt rest : Text)
    → has b'}' fmt ≡ false
    → (is_nil fmt && starts_with b'{' rest) ≡ false
    → time_format (braces fmt ++ rest) ≡ (fmt, rest)
unfolding time_format
time_format-braces [] [] h n = refl
time_format-braces [] (c ∷ rest) h n = ground arith
time_format-braces (c ∷ s) rest h n =
    rw (append_assoc s (b'}' ∷ []) rest, scan_format-found (c ∷ s) rest [] false h refl) refl

-- The item of a piece.
parse_percent-piece :
    (k : ℕ) (fmt rest : Text) (p : Parsed)
    → is_bound k ≡ true
    → ((k == b'd') || is_nil fmt) ≡ true
    → has b'}' fmt ≡ false
    → (is_nil fmt && starts_with b'{' rest) ≡ false
    → parse_percent (k ∷ (braces fmt ++ rest)) p ≡ (rest, pushed p k fmt)
unfolding parse_percent parse_item
parse_percent-piece k [] rest p b d h n = elim (Bool-cases (k == b'd')) [
  | inl e ↦ rw (b, e, time_format-braces [] rest h n) refl
  | inr e ↦ rw (b, e) refl
]
parse_percent-piece k (c ∷ fmt) rest p b d h n =
    let e : (k == b'd') ≡ true = ground arith in
    rw (b, e, time_format-braces (c ∷ fmt) rest h n) refl

pushed-items_of :
    (t : Text) (k : ℕ) (fmt : Text) (items : List Item)
    → (pushed (record { tem_str = t; items = items }) k fmt).items ≡ items ++ items_of t k fmt
unfolding pushed flush
pushed-items_of [] k fmt items = refl
pushed-items_of (c ∷ t) k fmt items = append_assoc items _ _

-- One piece.
parse_from-piece :
    (p : Piece) (rest : Text) (items : List Item)
    → IsPiece p rest
    → parse_from (print_piece p ++ rest) (record { tem_str = []; items = items })
      ≡ parse_from rest
          (record { tem_str = []; items = items ++ items_of p.literal p.key p.date_format })
unfolding IsPiece parse_char pushed
parse_from-piece p rest items (plain, bound, dated, closed, bare) =
    let body : Text = p.key ∷ (braces p.date_format ++ rest) in
    let state : Parsed = record { tem_str = p.literal; items = items } in
    rw
      (
        append_assoc p.literal (b'%' ∷ p.key ∷ braces p.date_format) rest,
        parse_from-literal p.literal (b'%' ∷ body) [] items plain,
        parse_from-cons b'%' body state,
        parse_percent-piece p.key p.date_format rest state bound dated closed bare,
        pushed-items_of p.literal p.key p.date_format items,
      )
      refl

parse_from-pieces :
    (ps : List Piece) (trail : Text) (items : List Item)
    → ArePieces ps trail
    → (parse_from (print_pieces ps trail) (record { tem_str = []; items = items })).items
      ≡ items ++ all_items ps
unfolding ArePieces print_pieces all_items parse_from parse_loop
parse_from-pieces [] trail items h =
    let e = parse_from-literal trail [] [] items h in
    let e1 =
      subst
        (λ s.
          parse_from s (record { tem_str = []; items = items })
          ≡ parse_from [] (record { tem_str = trail; items = items }))
        (append-nil trail) e in
    rw (append-nil items) (ap (λ q. q.items) e1)
parse_from-pieces (p ∷ ps) trail items h =
    let its = items_of p.literal p.key p.date_format in
    rw
      (
        parse_from-piece p (print_pieces ps trail) items h.0,
        ← append_assoc items its (all_items ps),
      )
      (parse_from-pieces ps trail (items ++ its) h.1)

-- For a pattern written from pieces of literal text, without %, each with an item of a bound key
-- behind it, and text without % behind the last: ParseFormatter gives the items of the pieces,
-- each literal text that is not empty as an item s in front of its item, a date's format in
-- braces with its d, and nothing for the text behind the last item. A date without a format has
-- no opening brace behind it, and a format no closing brace.
pub parse_formatter-print_pieces :
    (ps : List Piece) (trail : Text)
    → ArePieces ps trail
    → parse_formatter (print_pieces ps trail) ≡ all_items ps
unfolding parse_formatter parse_from
parse_formatter-print_pieces ps trail h = parse_from-pieces ps trail [] h
