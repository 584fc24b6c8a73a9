-- ===== src/Tests/Messages.antt =====
-- Examples of the theorems on messages.
use rbczmq.Base.{
  ℕ, ◌≡◌, ◌≢◌, refl, arith, ◌&&◌, false, none, some, List, [], ◌∷◌, ok, Returns, ◌==◌,
  if◌then◌else◌,
}
use rbczmq.Czmq.{Ptr, bytes_eq, up_to_nul}
use rbczmq.Czmq.Ideal.{ideal, ideal_laws}
use rbczmq.Czmq.Zlist.{ideal_zlist, ideal_lists}
use rbczmq.Message.{push, add, pop, popstr, remove, wrap, unwrap}
use rbczmq.Message.Copies.{dup, eql_p}
use rbczmq.Message.Alloc.{Dangling, dup_lem}
use rbczmq.Message.Deque.{Grown, Kept, push_lem, add_lem, pop_lem}
use rbczmq.Message.Encoding.{eql_p_lem}
use rbczmq.Message.Envelope.{wrap_lem, unwrap_lem}
use rbczmq.Message.Remove.{remove_lem}
use rbczmq.Message.Sharing.{wrap_shares}
use rbczmq.Message.Refinement.{StringOp, pushes, adds, pops, Specs, perform_all, perform_all_lem}
use rbczmq.Message.Sync.{bytes}
use rbczmq.Message.Strings.{cell, popstr_lem}
use rbczmq.Message.Sync.{Cell, bytes, linked, Synced, Owns}
use rbczmq.Objects.{MessageObj, qnil, obj, str, bool_value, St}
use rbczmq.Tests.States.{state, cell2, cell3, cell4, cell5, synced, synced_single, owns, fresh}

abbrev Has : St ideal ideal_zlist → ℕ → List Cell → Type 0
Has = Synced ideal_laws ideal_lists

push_lem_example :
    Returns
      (Grown ideal_laws ideal_lists 1 (cell2 ∷ cell3 ∷ []) (cell4 ∷ cell2 ∷ cell3 ∷ []) cell4)
      (Kept ideal_laws ideal_lists 1 (cell2 ∷ cell3 ∷ []) cell4)
      (push 1 4 state)
push_lem_example =
    push_lem ideal_laws ideal_lists state 1 (cell2 ∷ cell3 ∷ []) cell4 synced owns
      (omega arith, (omega arith, tt))

add_lem_example :
    Returns
      (Grown ideal_laws ideal_lists 1 (cell2 ∷ cell3 ∷ []) (cell2 ∷ cell3 ∷ cell4 ∷ []) cell4)
      (Kept ideal_laws ideal_lists 1 (cell2 ∷ cell3 ∷ []) cell4)
      (add 1 4 state)
add_lem_example =
    add_lem ideal_laws ideal_lists state 1 (cell2 ∷ cell3 ∷ []) cell4 synced owns
      (omega arith, (omega arith, tt))

pop_lem_example :
    Returns
      (λ r t. (r ≡ obj 2) × Has t 1 (cell3 ∷ []) × Owns ideal_laws ideal_lists t 2 20 (7 ∷ []))
      (λ e t. ⊥)
      (pop 1 state)
pop_lem_example =
    pop_lem ideal_laws ideal_lists state 1 cell2 (cell3 ∷ []) (omega arith) (omega arith) synced

popstr_lem_example :
    Returns
      (λ r t.
        (r ≡ str (up_to_nul (7 ∷ [])))
        × Has t 1 (cell3 ∷ [])
        × (t.frame_objs 2 ≡ some (linked 20 1))
        × ((ideal_laws.view t.world).frames 20 ≡ none))
      (λ e t. ⊥)
      (popstr 1 state)
popstr_lem_example = popstr_lem ideal_laws ideal_lists state 1 cell2 (cell3 ∷ []) synced

remove_lem_example :
    Returns
      (λ r t. (r ≡ qnil) × Has t 1 (cell2 ∷ []) × Owns ideal_laws ideal_lists t 3 30 [])
      (λ e t. ⊥)
      (remove 1 3 state)
remove_lem_example = remove_lem ideal_laws ideal_lists state 1 (cell2 ∷ []) cell3 [] synced

wrap_lem_example :
    Returns
      (λ r t.
        (r ≡ qnil) × ((e : Ptr) × (e ≢ 0) × Has t 1 (cell4 ∷ cell 7 e [] ∷ cell2 ∷ cell3 ∷ [])))
      (λ e t. ⊥)
      (wrap 1 4 state)
wrap_lem_example =
    wrap_lem ideal_laws ideal_lists state 1 (cell2 ∷ cell3 ∷ []) cell4 synced owns
      (omega arith, (omega arith, tt)) refl

unwrap_lem_example :
    Returns
      (λ r t. (r ≡ obj 2) × Has t 1 [] × Owns ideal_laws ideal_lists t 2 20 (7 ∷ []))
      (λ e t. ⊥)
      (unwrap 1 state)
unwrap_lem_example =
    unwrap_lem ideal_laws ideal_lists state 1 cell2 cell3 [] (omega arith) (omega arith) synced

dup_lem_example :
    Returns
      (λ r t. (r ≡ obj 7) × ((ys : List Cell) × Has t 7 ys × (bytes ys ≡ (7 ∷ []) ∷ [] ∷ [])))
      (λ e t.
        (ideal_laws.view t.world ≡ ideal_laws.view state.world)
        × Dangling ideal_laws ideal_lists state t)
      (dup 3 1 state)
dup_lem_example =
    dup_lem ideal_laws ideal_lists 3 state 1 (cell2 ∷ cell3 ∷ []) synced fresh (omega arith)

wrap_shares_example :
    Returns
      (λ r t.
        (r ≡ qnil)
        × ((e : Ptr) × ((ideal_laws.view t.world).msgs 10 ≡ some (50 ∷ e ∷ 20 ∷ 30 ∷ [])))
        × ((ideal_laws.view t.world).msgs 11 ≡ some (50 ∷ [])))
      (λ e t. ⊥)
      (wrap 1 5 state)
wrap_shares_example =
    wrap_shares ideal_laws ideal_lists state 1 6 (cell2 ∷ cell3 ∷ []) [] [] cell5 synced
      synced_single (omega arith)

-- The state with message 1 destroyed.
abbrev dead : MessageObj ideal_zlist
dead = record { message = 0; owned = false; frames = none }

abbrev destroyed : St ideal ideal_zlist
destroyed = record state { message_objs = λ v. if v == 1 then some dead else none }

eql_p_lem_example :
    eql_p 1 6 state
    ≡ ok
        (bool_value (
          (2 == 1)
          && ((1 == 1)
              && ((3 == 2) && bytes_eq (up_to_nul (1 ∷ 7 ∷ 0 ∷ [])) (up_to_nul (1 ∷ 5 ∷ []))))))
        state
eql_p_lem_example =
    eql_p_lem state 1 6 _ _ 2 1 1 1 (1 ∷ 7 ∷ 0 ∷ []) (1 ∷ 5 ∷ []) refl refl refl refl refl refl refl
      refl refl refl

abbrev some_ops : List StringOp
some_ops = pushes (4 ∷ []) ∷ adds [] ∷ pops ∷ []

perform_all_lem_example :
    Returns
      (λ rs t.
        (ys : List Cell) × Synced ideal_laws ideal_lists t 1 ys
        × Specs some_ops ((7 ∷ []) ∷ [] ∷ []) rs (bytes ys))
      (λ e t. (ys : List Cell) × Synced ideal_laws ideal_lists t 1 ys)
      (perform_all 1 some_ops state)
perform_all_lem_example =
    perform_all_lem ideal_laws ideal_lists some_ops state 1 (cell2 ∷ cell3 ∷ []) synced fresh
