-- ===== src/Czmq/Codec.antt =====
-- The documented behaviour of zmsg_encode and zmsg_decode, and an encoding that has it, for examples:
-- the length of each frame before its data.
use rbczmq.Base.{
  ℕ, zero, suc, ◌≤◌, ◌≡◌, ◌≢◌, refl, ap, ◌⊎◌, Option, none, some, List, [], ◌∷◌, ◌++◌, map, length,
  Distinct, NonNull, arith, length-append,
}
use rbczmq.Czmq.{Ptr, Bytes, Czmq, Documented, contents}

-- What zmsg_encode makes of a message is, at any later time, what zmsg_decode makes a message with
-- the same data of, or NULL where memory is short.
pub record Codec {c : Czmq} (laws : Documented c) : Type 0 where
  pub encode_msg :
      (m : Ptr) (ps : List Ptr) (w : c.World)
      → (laws.view w).msgs m ≡ some ps
      → (b : Bytes) × (c.zmsg_encode m w ≡ some b)
  pub decode_msg :
      (m : Ptr) (ps : List Ptr) (ds : List Bytes) (b : Bytes) (w₀ w : c.World)
      → (laws.view w₀).msgs m ≡ some ps
      → contents (laws.view w₀) ps ≡ map some ds
      → c.zmsg_encode m w₀ ≡ some b
      → ((m' : Ptr) × (qs : List Ptr) × (w' : c.World) × (c.zmsg_decode b w ≡ (m', w'))
          × (m' ≢ 0)
          × ((laws.view w').msgs m' ≡ some qs)
          × Distinct qs
          × NonNull qs
          × (contents (laws.view w') qs ≡ map some ds)
          × ((p : Ptr) (d : Bytes)
              → (laws.view w).frames p ≡ some d
              → (laws.view w').frames p ≡ some d)
          × ((n : Ptr) → n ≢ m' → (laws.view w').msgs n ≡ (laws.view w).msgs n)
          × ((laws.view w).msgs m' ≡ none))
        ⊎ ((w' : c.World) × (c.zmsg_decode b w ≡ (0, w')) × (laws.view w' ≡ laws.view w))

abbrev pub join : List (Option Bytes) → Bytes
join [] = []
join (none ∷ ds) = join ds
join (some d ∷ ds) = length d ∷ (d ++ join ds)

-- The first `n` bytes, with the bytes before them in reverse, and what follows.
abbrev split : ℕ → Bytes → Bytes × Bytes
split zero xs = ([], xs)
split (suc n) [] = ([], [])
split (suc n) (x ∷ xs) = let r = split n xs in (x ∷ r.0, r.1)

abbrev parse_from : (fuel : ℕ) → Bytes → List (Option Bytes)
parse_from zero xs = []
parse_from (suc f) [] = []
parse_from (suc f) (n ∷ xs) = let r = split n xs in some r.0 ∷ parse_from f r.1

abbrev pub parse : Bytes → List (Option Bytes)
parse xs = parse_from (length xs) xs

split-append : (d xs : Bytes) → split (length d) (d ++ xs) ≡ (d, xs)
split-append [] xs = refl
split-append (x ∷ d) xs = rw (split-append d xs) refl

parse_from-join :
    (f : ℕ) (ds : List Bytes)
    → length (join (map some ds)) ≤ f
    → parse_from f (join (map some ds)) ≡ map some ds
parse_from-join zero [] h = refl
parse_from-join zero (d ∷ ds) h = absurd (omega (arith, h))
parse_from-join (suc f) [] h = refl
parse_from-join (suc f) (d ∷ ds) h = rw (split-append d (join (map some ds))) (
    ap (◌∷◌ (some d))
      (parse_from-join f ds (omega (arith, h, length-append d (join (map some ds))))))

pub parse-join : (ds : List Bytes) → parse (join (map some ds)) ≡ map some ds
parse-join ds = parse_from-join (length (join (map some ds))) ds (omega arith)
