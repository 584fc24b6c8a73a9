-- ===== src/Message/Encoding.antt =====
-- `eql?` of ext/rbczmq/message.c, which compares the encodings of two messages by `strncmp`.
use rbczmq.Base.{
  ℕ, zero, suc, ◌≡◌, refl, sym, ◌∙◌, ap, true, some, [], ◌∷◌, ◌++◌, ◌&&◌, length, ok, inl, inr,
  Bool-cases, arith, ◌==◌, ==_self, ==_iff,
}
use rbczmq.Czmq.{Bytes, Czmq, bytes_eq, up_to_nul}
use rbczmq.Czmq.Zlist.{Zlist}
use rbczmq.Message.Copies.{eql_p, strncmp_eq}
use rbczmq.Objects.{MessageObj, qtrue, bool_value, St}

-- Over buffers of one length, `strncmp` compares what stands before the first 0 byte.
strncmp_lem :
    (n : ℕ) (xs ys : Bytes)
    → length xs ≡ n
    → length ys ≡ n
    → strncmp_eq n xs ys ≡ bytes_eq (up_to_nul xs) (up_to_nul ys)
unfolding strncmp_eq up_to_nul
strncmp_lem zero [] [] h k = refl
strncmp_lem zero [] (y ∷ ys) h k = absurd (omega arith)
strncmp_lem zero (x ∷ xs) ys h k = absurd (omega arith)
strncmp_lem (suc n) [] ys h k = absurd (omega arith)
strncmp_lem (suc n) (x ∷ xs) [] h k = absurd (omega arith)
strncmp_lem (suc n) (x ∷ xs) (y ∷ ys) h k =
    ground (arith, strncmp_lem n xs ys (omega arith) (omega arith))

up_to_nul-append : (pre rest : Bytes) → up_to_nul (pre ++ 0 ∷ rest) ≡ up_to_nul pre
unfolding up_to_nul
up_to_nul-append [] rest = refl
up_to_nul-append (x ∷ xs) rest = elim (Bool-cases (x == 0)) [
  | inl e ↦ rw (e, up_to_nul)
  | inr e ↦ rw (e, up_to_nul) (ap (◌∷◌ x) (up_to_nul-append xs rest))
]

bytes_eq_refl : (xs : Bytes) → bytes_eq xs xs ≡ true
bytes_eq_refl [] = refl
bytes_eq_refl (x ∷ xs) = rw (==_self x, bytes_eq_refl xs)

module _ {c : Czmq} {z : Zlist} (s : St c z) (v u : ℕ) (m o : MessageObj z) (a b a' b' : ℕ)
    (d e : Bytes) (left : s.message_objs v ≡ some m) (right : s.message_objs u ≡ some o)
    (left_owned : m.owned ≡ true) (right_owned : o.owned ≡ true)
    (size : c.zmsg_size m.message s.world ≡ some a) (size' : c.zmsg_size o.message s.world ≡ some b)
    (content : c.zmsg_content_size m.message s.world ≡ some a')
    (content' : c.zmsg_content_size o.message s.world ≡ some b')
    (encoded : c.zmsg_encode m.message s.world ≡ some d)
    (encoded' : c.zmsg_encode o.message s.world ≡ some e) where
  -- eql? of two messages that are not gone, where the library gives their sizes, content sizes and
  -- encodings, is true just when the numbers of frames, the sizes of the contents and the sizes of
  -- the encodings agree and the encodings agree before the first 0 byte of each.
  pub eql_p_lem :
      eql_p v u s
      ≡ ok
          (bool_value (
            (a == b)
            && ((a' == b') && ((length d == length e) && bytes_eq (up_to_nul d) (up_to_nul e)))))
          s
  unfolding eql_p
  eql_p_lem =
      rw (left, right, left_owned, right_owned, size, size')
        (elim (Bool-cases (a == b)) [
          | inr f ↦ rw f
          | inl f ↦ rw f (
              rw (content, content')
                (elim (Bool-cases (a' == b')) [
                  | inr g ↦ rw g
                  | inl g ↦ rw g (
                      rw (encoded, encoded')
                        (elim (Bool-cases (length d == length e)) [
                          | inr h ↦ rw h
                          | inl h ↦
                              rw h (rw (strncmp_lem (length d) d e refl (sym ((==_iff _ _).0 h))))
                        ]))
                ]))
        ])

  -- So two messages of equal sizes whose encodings differ only behind a 0 byte count as equal.
  pub eql_p-ignores :
      (pre rest rest' : Bytes)
      → a ≡ b
      → a' ≡ b'
      → d ≡ pre ++ 0 ∷ rest
      → e ≡ pre ++ 0 ∷ rest'
      → length d ≡ length e
      → eql_p v u s ≡ ok qtrue s
  eql_p-ignores pre rest rest' f g h k l =
      eql_p_lem
      ∙ rw (f, g, l, ==_self b, ==_self b', ==_self (length e))
          (rw (h, k, up_to_nul-append pre rest, up_to_nul-append pre rest', bytes_eq_refl))
