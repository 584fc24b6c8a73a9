-- ===== src/Tests/Iterations.antt =====
-- Examples of the theorems on the cursor of a message's list, on its encoding, and on pop and push.
use rbczmq.Base.{◌≡◌, refl, arith, true, none, some, [], ◌∷◌, Returns, ◌==◌, if◌then◌else◌}
use rbczmq.Czmq.Ideal.{ideal, ideal_laws, ideal_codec}
use rbczmq.Czmq.Zlist.{ideal_zlist, ideal_lists}
use rbczmq.Message.{push, pop}
use rbczmq.Message.Copies.{encode, s_decode}
use rbczmq.Message.Cursor.{next, to_a, mark}
use rbczmq.Message.Deque.{Grown, Kept, pop-push}
use rbczmq.Message.Exchange.{Decoded, encode-decode}
use rbczmq.Message.Iteration.{each, each_lem, mark_lem}
use rbczmq.Message.Sync.{Synced}
use rbczmq.Objects.{arr, obj, St}
use rbczmq.Tests.States.{state, cell2, cell3, synced, fresh}

each_lem_example :
    Returns
      (λ r t.
        (r ≡ 2 ∷ 3 ∷ [])
        × Synced ideal_laws ideal_lists t 1 (cell2 ∷ cell3 ∷ [])
        × Returns
            (λ a t'. (a ≡ arr r) × Synced ideal_laws ideal_lists t' 1 (cell2 ∷ cell3 ∷ []))
            (λ e t'. ⊥)
            (to_a 3 1 t))
      (λ e t. ⊥)
      (each 3 1 state)
each_lem_example =
    each_lem ideal_laws ideal_lists 3 state 1 (cell2 ∷ cell3 ∷ []) synced
      (omega arith, (omega arith, tt)) (omega arith)

-- The message 1 after `first`.
abbrev begun : St ideal ideal_zlist
begun = record state {
  message_objs = λ v.
      if v == 1
      then some (record {
        message = 10;
        owned = true;
        frames = some (record { all = 2 ∷ 3 ∷ []; rest = some (3 ∷ []) });
      })
      else none;
}

abbrev synced_begun : Synced ideal_laws ideal_lists begun 1 (cell2 ∷ cell3 ∷ [])
synced_begun = record {
  message = 10;
  list = record { all = 2 ∷ 3 ∷ []; rest = some (3 ∷ []) };
  object = refl;
  items = refl;
  native = refl;
  linked = (refl, refl, (omega arith, tt), (omega arith, tt), (refl, refl, tt, tt, tt));
}

mark_lem_example :
    Returns (λ r t. r ≡ obj 3) (λ e t. ⊥) (next 1 begun)
    × Returns
        (λ r t.
          (r ≡ 2 ∷ 3 ∷ [])
          × Synced ideal_laws ideal_lists t 1 (cell2 ∷ cell3 ∷ [])
          × Returns (λ a t'. a ≡ obj 2) (λ e t'. ⊥) (next 1 t))
        (λ e t. ⊥)
        (mark 3 1 begun)
mark_lem_example =
    mark_lem ideal_laws ideal_lists 3 begun 1 (cell2 ∷ cell3 ∷ []) synced_begun (3 ∷ []) refl
      (omega arith, (omega arith, tt)) (omega arith)

encode-decode_example :
    Returns
      (λ r s'.
        (s' ≡ state)
        × Returns
            (Decoded ideal_laws ideal_lists ideal_codec state ((7 ∷ []) ∷ [] ∷ []))
            (λ e t'. ⊥)
            (s_decode 3 r state))
      (λ e s'. ⊥)
      (encode 1 state)
encode-decode_example =
    encode-decode ideal_laws ideal_lists ideal_codec 3 state 1 (cell2 ∷ cell3 ∷ []) state synced
      fresh (omega arith)

pop-push_example :
    Returns
      (λ r t.
        (r ≡ obj 2)
        × Returns
            (Grown ideal_laws ideal_lists 1 (cell3 ∷ []) (cell2 ∷ cell3 ∷ []) cell2)
            (Kept ideal_laws ideal_lists 1 (cell3 ∷ []) cell2)
            (push 1 2 t))
      (λ e t. ⊥)
      (pop 1 state)
pop-push_example =
    pop-push ideal_laws ideal_lists state 1 cell2 (cell3 ∷ []) (omega arith) (omega arith) synced
