-- ===== src/Message/Exchange.antt =====
-- `encode` and `s_decode` of ext/rbczmq/message.c: a message as a string, and back.
use rbczmq.Base.{
  ℕ, ◌<◌, ◌+◌, ◌≡◌, refl, ◌∙◌, ap, ◌⊎◌, inl, inr, List, length, Returns, returns, Returns-mono,
  arith, ne→==, some,
}
use rbczmq.Czmq.{Bytes, Czmq, Documented}
use rbczmq.Czmq.Codec.{Codec}
use rbczmq.Czmq.Zlist.{Zlist, ListLaws}
use rbczmq.Message.Copies.{encode, s_decode}
use rbczmq.Message.Alloc.{
  Fresh, numbered, pair_up, contents-frames, length-datas, length-bytes, bytes-numbered,
  alloc_message_lem,
}
use rbczmq.Message.Sync.{Cell, frames, bytes, Synced}
use rbczmq.Objects.{qnil, obj, str, Value, St}

module _ {c : Czmq} {z : Zlist} (laws : Documented c) (lists : ListLaws z)
    (codec : Codec laws) where
  -- What `s_decode` may come to: a new message with these data, or nil and nothing new.
  abbrev pub Decoded : (s : St c z) → List Bytes → Value → St c z → Type 0
  Decoded s ds r t =
      ((r ≡ obj s.next) × ((ys : List Cell) × Synced laws lists t s.next ys × (bytes ys ≡ ds)))
      ⊎ ((r ≡ qnil) × (laws.view t.world ≡ laws.view s.world))

  -- encode of a message in step returns a string and changes nothing, and ZMQ::Message.decode of
  -- that string at any time, where no reference from the next one on is in use, and with more fuel
  -- than frames, returns a new message in step whose frames hold the same data in the same order,
  -- or returns nil and leaves the library's frames and messages as they were. Nothing is raised.
  pub encode-decode :
      (k : ℕ) (s : St c z) (v : ℕ) (xs : List Cell) (t : St c z)
      → Synced laws lists s v xs
      → Fresh laws lists t
      → length xs < k
      → Returns
          (λ r s'. (s' ≡ s) × Returns (Decoded t (bytes xs)) (λ e t'. ⊥) (s_decode k r t))
          (λ e s'. ⊥)
          (encode v s)
  unfolding encode s_decode
  encode-decode k s v xs t y f h =
      let (b, e) = codec.encode_msg y.message (frames xs) s.world y.native in
      rw (y.object) (rw e (returns (refl, decoded b e)))
    where
      decoded :
          (b : Bytes)
          → c.zmsg_encode y.message s.world ≡ some b
          → Returns (Decoded t (bytes xs)) (λ e t'. ⊥) (s_decode k (str b) t)
      decoded b e =
          elim (codec.decode_msg y.message (frames xs) (bytes xs) b s.world t.world y.native
            (contents-frames _ _ v xs y.linked) e) [
              | inl (m, qs, w, e', nz, n, d, nn, same, keeps, others, was) ↦
                  let (ps, f₁, l, g) = pair_up (laws.view w).frames qs (bytes xs) same in
                  let len : length ps < k =
                    omega (arith, length-datas ps, ap length g, length-bytes xs, h) in
                  rw (e', ne→== nz)
                    (Returns-mono
                      (alloc_message_lem laws lists k (record t { world = w }) ps m nz (rw f₁ n) l
                        (rw f₁ d) (rw f₁ nn) f len)
                      (λ a t' r.
                        inl (
                          r.0,
                          (numbered (t.next + 1) ps, r.1, bytes-numbered (t.next + 1) ps ∙ g),
                        ))
                      (λ x t' q. q))
              | inr (w, e', k₁) ↦ rw e' (returns (inr (refl, k₁)))
            ]
