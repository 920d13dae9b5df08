-- ===== src/Json/Parser/ArrayRounds.antt =====
-- The rounds of the loop of `ParseArray` over the text of an array.
use litetvm_ffi.Map.Assoc.{KeyApi}
use litetvm_ffi.Prelude.{
  ℕ, zero, suc, some, List, [], ◌∷◌, ◌++◌, Bool, false, ◌≡◌, ◌<◌, refl, ap, arith, Bytes, length,
  take-append, drop-append, append_assoc, ◌==◌,
}
use litetvm_ffi.Prelude.Int.{ℤ}
use litetvm_ffi.Json.Context.{Context, put, peek, advance}
use litetvm_ffi.Json.Context.Spaces.{IsBlank, IsSolid}
use litetvm_ffi.Json.Number.Text.{EndsNumber}
use litetvm_ffi.Json.Parser.{
  Parser, Parsed, array_next, array_round, array_loop, parse_dispatch, parse_value, push_value,
}
use litetvm_ffi.Json.Parser.Readable.{IsReadableValue, AreReadable}
use litetvm_ffi.Json.Parser.Texts.{text-StartsValue, separator-IsBlank, items_text-EndsNumber}
use litetvm_ffi.Json.Parser.Steps.{state, ParsesTo, bind-ParsesTo, skip_spaces-state, StartsValue}
use litetvm_ffi.Json.Value.{Value, array, Items, nil, cons, Doubles, items_of, items_list}
use litetvm_ffi.Json.Writer.Text.{separator, text, items_text}

pub StartsValue-IsSolid : (s : Bytes) → StartsValue s → IsSolid s
StartsValue-IsSolid [] h = absurd h
StartsValue-IsSolid (x ∷ s) h = h.0

-- The first byte of a value is there to be seen.
pub peek_start :
    (t : Bytes) (c : Context)
    → StartsValue t
    → (x : ℕ) × (peek (put t c) ≡ some x) × ((x == b']') ≡ false) × ((x == b'}') ≡ false)
peek_start [] c h = absurd h
peek_start (x ∷ s) c h = (x, refl, h.1, h.2)

module _ (doubles : Doubles) where
  open doubles use {Double}

  module _ (keys : KeyApi Bytes) (signed : Bool) (indent : ℤ) where
    -- With the given fuel the parser reads the text of `v`, at every level, behind spaces and in front
    -- of anything that is no part of a number.
    abbrev pub Parses : ℕ → Value Double → Type 0
    Parses fuel v =
        (level : ℤ) (ws rest : Bytes) (c : Context) (items : List (Value Double))
        (entries : List (Value Double × Value Double))
        → IsBlank ws
        → EndsNumber rest
        → ParsesTo v rest items entries (
            parse_value doubles keys signed fuel
              (state (put (ws ++ (text doubles indent level v ++ rest)) c) items entries))

    abbrev pub ItemsParse : ℕ → Items Double → Type 0
    ItemsParse fuel nil = Unit
    ItemsParse fuel (cons v vs) = Parses fuel v × ItemsParse fuel vs

    -- A value is parsed if it is so once the spaces are skipped.
    pub parse_value-skip :
        (fuel : ℕ) (v : Value Double) (ws t rest : Bytes) (c : Context)
        (items : List (Value Double)) (entries : List (Value Double × Value Double))
        → IsBlank ws
        → StartsValue t
        → ((d : Context)
            → ParsesTo v rest items entries (
                parse_dispatch doubles keys signed
                  (parse_value doubles keys signed fuel)
                  (state (put t d) items entries)))
        → ParsesTo v rest items entries
            (parse_value doubles keys signed (suc fuel) (state (put (ws ++ t) c) items entries))
    unfolding parse_value
    parse_value-skip fuel v ws t rest c items entries blank start k =
        skip_spaces-state
          (λ p.
            ParsesTo v rest items entries
              (parse_dispatch doubles keys signed (parse_value doubles keys signed fuel) p))
          ws t c items entries blank (StartsValue-IsSolid t start) k

    module _ (fuel : ℕ) (close : ℤ) (rest : Bytes) where
      abbrev nested : Parser Double → Parsed Double
      nested = parse_value doubles keys signed fuel

      -- What stands behind an element of the array.
      abbrev after : ℤ → Items Double → Bytes
      after level vs =
          items_text doubles indent level false vs ++ (separator indent close ++ b']' ∷ rest)

      -- A round reads one value, and goes on behind it.
      array_round-Parses :
          (v : Value Double) (t : Bytes) (level : ℤ) (top : ℕ)
          (go_on : Parser Double → Parsed Double) (c : Context) (items : List (Value Double))
          (entries : List (Value Double × Value Double)) (P : Parsed Double → Type 0)
          → Parses fuel v
          → IsReadableValue doubles signed v
          → EndsNumber t
          → ((d : Context)
              → P (
                  array_next nested top go_on
                    (push_value nested v (state (put t d) items entries))))
          → P (
              array_round nested top go_on
                (state (put (text doubles indent level v ++ t) c) items entries))
      array_round-Parses v t level top go_on c items entries P h r ends k =
          let (x, e, _, _) =
            peek_start (text doubles indent level v ++ t) c
              (text-StartsValue doubles signed indent v level t r) in
          unfold array_round in
          rw (e, array_round)
            (bind-ParsesTo P (λ w q. array_next nested top go_on (push_value nested w q)) v t items
              entries _ (h level [] t c items entries tt ends) k)

      -- Behind the last value the array is made of what lies on the stack above its start.
      array_next-close :
          (v : Value Double) (go_on : Parser Double → Parsed Double) (c : Context)
          (base before : List (Value Double)) (entries : List (Value Double × Value Double))
          → ParsesTo (array (items_of (before ++ v ∷ []))) rest base entries (
              array_next nested (length base) go_on (
                push_value nested v
                  (state (put (separator indent close ++ b']' ∷ rest) c) (base ++ before) entries)))
      array_next-close v go_on c base before entries = rw (append_assoc base before (v ∷ [])) (
          skip_spaces-state
            (λ q.
              ParsesTo (array (items_of (before ++ v ∷ []))) rest base entries
                (array_next nested (length base) go_on q))
            (separator indent close) (b']' ∷ rest) c (base ++ (before ++ v ∷ [])) entries
            (separator-IsBlank doubles signed indent close) refl
            (λ d.
              unfold array_next in
              (
                ap (λ l. array (items_of l)) (drop-append base (before ++ v ∷ [])),
                refl,
                take-append base (before ++ v ∷ []),
                refl,
              )))

      -- Behind any other value stands a comma, and the loop goes on at the next value.
      array_next-comma :
          (v w : Value Double) (vs : Items Double) (level : ℤ) (top : ℕ)
          (go_on : Parser Double → Parsed Double) (c : Context) (items : List (Value Double))
          (entries : List (Value Double × Value Double)) (P : Parsed Double → Type 0)
          → IsReadableValue doubles signed w
          → ((d : Context)
              → P (
                  go_on (
                    state
                      (put (text doubles indent level w ++ after level vs) d)
                      (items ++ v ∷ [])
                      entries)))
          → P (
              array_next nested top go_on
                (push_value nested v (state (put (after level (cons w vs)) c) items entries)))
      unfolding text
      array_next-comma v w vs level top go_on c items entries P r k =
          let t = text doubles indent level w in
          let ts = items_text doubles indent level false vs in
          let end = separator indent close ++ b']' ∷ rest in
          skip_spaces-state (λ q. P (array_next nested top go_on q)) []
            (b',' ∷ ((separator indent level ++ (t ++ ts)) ++ end)) c (items ++ v ∷ []) entries tt
            refl
            (λ d.
              unfold array_next in
              rw (append_assoc (separator indent level) (t ++ ts) end, append_assoc t ts end)
                (skip_spaces-state (λ q. P (go_on q)) (separator indent level) (t ++ (ts ++ end))
                  (advance (put (b',' ∷ []) d)) (items ++ v ∷ []) entries
                  (separator-IsBlank doubles signed indent level)
                  (StartsValue-IsSolid (t ++ (ts ++ end))
                    (text-StartsValue doubles signed indent w level (ts ++ end) r))
                  k))

      pub array_loop-items :
          (vs : Items Double) (v : Value Double) (rounds : ℕ) (level : ℤ) (c : Context)
          (base before : List (Value Double)) (entries : List (Value Double × Value Double))
          → ItemsParse fuel (cons v vs)
          → AreReadable doubles signed (cons v vs)
          → length (items_list vs) < rounds
          → ParsesTo (array (items_of (before ++ v ∷ items_list vs))) rest base entries (
              array_loop nested rounds (length base) (
                state
                  (put (text doubles indent level v ++ after level vs) c)
                  (base ++ before)
                  entries))
      unfolding array_loop
      array_loop-items vs v zero level c base before entries h r enough = absurd (omega arith)
      array_loop-items nil v (suc n) level c base before entries h r enough =
          array_round-Parses v (after level nil) level (length base)
            (array_loop nested n (length base)) c (base ++ before) entries
            (ParsesTo (array (items_of (before ++ v ∷ []))) rest base entries) h.0 r.0
            (items_text-EndsNumber doubles signed indent nil level close rest)
            (λ d.
              unfold text in
              array_next-close v (array_loop nested n (length base)) d base before entries)
      array_loop-items (cons w vs) v (suc n) level c base before entries h r enough =
          let P = ParsesTo (array (items_of (before ++ v ∷ w ∷ items_list vs))) rest base entries in
          let go_on = array_loop nested n (length base) in
          let later : (d : Context)
              → P (
                  go_on (
                    state (put (text doubles indent level w ++ after level vs) d)
                      ((base ++ before) ++ v ∷ []) entries)) =
            λ d.
              rw
                (
                  append_assoc base before (v ∷ []),
                  ← append_assoc before (v ∷ []) (w ∷ items_list vs),
                )
                (array_loop-items vs w n level d base (before ++ v ∷ []) entries h.1 r.1
                  (omega arith)) in
          array_round-Parses v (after level (cons w vs)) level (length base) go_on c
            (base ++ before) entries P h.0 r.0
            (items_text-EndsNumber doubles signed indent (cons w vs) level close rest)
            (λ d.
              array_next-comma v w vs level (length base) go_on d (base ++ before) entries P r.1.0
                later)
