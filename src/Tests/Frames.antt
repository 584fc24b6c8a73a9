-- ===== src/Tests/Frames.antt =====
-- Examples of the theorems on frames.
use rbczmq.Base.{
  ℕ, ◌≡◌, refl, arith, true, false, none, some, [], ◌∷◌, zmq_error, ok, raise, Returns, ◌==◌,
  if◌then◌else◌,
}
use rbczmq.Czmq.{set_frame}
use rbczmq.Czmq.Ideal.{ideal, ideal_laws}
use rbczmq.Czmq.Zlist.{ideal_zlist}
use rbczmq.Frame.{
  size, get_data, strhex, more_p, dup, data_equals_p, reset, print, eql_p, destroy, gone,
  free_frame_gc,
}
use rbczmq.Frame.Ownership.{destroy_once, gone_with_message}
use rbczmq.Objects.{MessageObj, Value, qnil, qtrue, St}
use rbczmq.Tests.States.{state}

destroy_once_example :
    Returns
      (λ r t.
        (r ≡ qnil)
        × (ideal_laws.view t.world ≡ set_frame (ideal_laws.view state.world) 40 none)
        × (gone 4 t ≡ ok qtrue t)
        × (destroy 4 t ≡ raise zmq_error t)
        × Returns
            (λ r' t'. (t'.world ≡ t.world) × (t'.frame_objs 4 ≡ none))
            (λ e t'. ⊥)
            (free_frame_gc 4 t))
      (λ e t. ⊥)
      (destroy 4 state)
destroy_once_example =
    destroy_once ideal_laws state 4 40 (9 ∷ 8 ∷ [])
      (record { object = refl; live = refl; ne_null = omega arith })

-- The state with message 1 destroyed.
abbrev dead : MessageObj ideal_zlist
dead = record { message = 0; owned = false; frames = none }

abbrev destroyed : St ideal ideal_zlist
destroyed = record state { message_objs = λ v. if v == 1 then some dead else none }

gone_with_message_example :
    (gone 2 destroyed ≡ ok qtrue destroyed)
    × (size 2 destroyed ≡ ok qnil destroyed)
    × (get_data 2 destroyed ≡ ok qnil destroyed)
    × (strhex 2 destroyed ≡ ok qnil destroyed)
    × (more_p 2 destroyed ≡ ok qnil destroyed)
    × (destroy 2 destroyed ≡ raise zmq_error destroyed)
    × (dup 2 destroyed ≡ raise zmq_error destroyed)
    × ((x : Value) → data_equals_p 2 x destroyed ≡ raise zmq_error destroyed)
    × ((x : Value) → reset 2 x destroyed ≡ raise zmq_error destroyed)
    × ((x : Value) → print 2 x destroyed ≡ raise zmq_error destroyed)
    × ((w : ℕ) → eql_p 2 w destroyed ≡ raise zmq_error destroyed)
gone_with_message_example = gone_with_message destroyed 2 20 1 dead refl refl refl

-- The state after the collector has taken message 1.
abbrev collected : St ideal ideal_zlist
collected = record state { message_objs = λ v. none }

-- The state in which object 5 keeps a pointer to a frame that is gone.
abbrev stale : St ideal ideal_zlist
stale = record state {
  frame_objs = λ u.
      if u == 4
      then some (record { frame = 40; message = none; owned = true })
      else if u == 5
      then some (record { frame = 60; message = none; owned = false })
      else none;
}

-- Two sizes.
abbrev three : ℕ
three = 3

abbrev five : ℕ
five = 5
