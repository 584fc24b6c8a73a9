-- ===== src/Tests/Transfers.antt =====
-- Examples of the theorems on sending and receiving frames and messages.
use rbczmq.Base.{
  ◌≡◌, refl, arith, true, false, none, some, List, [], ◌∷◌, ◌⊎◌, ok, raise, zmq_error,
  if◌then◌else◌, pos, Returns, ◌==◌, ◌>>◌,
}
use rbczmq.Context.Closing.{Member, live}
use rbczmq.Czmq.{Errno}
use rbczmq.Czmq.Ideal.{ideal, ideal_laws}
use rbczmq.Czmq.Zlist.{ideal_zlist, ideal_lists}
use rbczmq.Frame
use rbczmq.Message
use rbczmq.Message.Sync.{Cell, Synced, Owns, bytes, frames}
use rbczmq.Net.{Net}
use rbczmq.Net.Ideal.{ideal_zsocket}
use rbczmq.Objects.{FrameObj, qnil, qtrue, qfalse, int, obj}
use rbczmq.Tests.States.{cell2, cell3, synced, owns, fresh}
use rbczmq.Tests.States
use rbczmq.Transfer.{
  Peer, send_frame, send_message, recv_frame, recv_frame_nonblock, recv_message, is_reuse,
}
use rbczmq.Transfer.Ideal.{ideal_wire, ideal_sends, ideal_receives, ideal_pipe}
use rbczmq.Transfer.Sending.{Usable, without, send_frame_lem, send_message_lem}
use rbczmq.Transfer.Receiving.{Received, recv_frame_lem, transfer_lem}

abbrev sender : Member
sender = record {
  ref = 2;
  ctx = 11;
  socket = 21;
  verbose = false;
  state = 2;
  endpoints = (105 ∷ 58 ∷ []) ∷ [];
  thread = 9;
}

abbrev receiver : Member
receiver = record sender { ref = 3; socket = 22; state = 4 }

abbrev net : Net ideal_zsocket ideal_zlist
net = record {
  world = record {
    opened = λ p. true;
    endpoint = λ p. none;
    next = 30;
    errno = Errno.success;
    queue = [];
  };
  socks =
      λ u. if u == 2 then some (live 1 sender) else if u == 3 then some (live 1 receiver) else none;
  ctxs = λ v. none;
  processes = λ p. none;
  dangling = [];
  next = 4;
  pid = 8;
  thread = 9;
}

-- Two sockets beside the frames and messages of the other examples.
abbrev peer : Peer ideal ideal_zsocket ideal_zlist
peer = record { net = net; objs = States.state }

abbrev no_longer : FrameObj
no_longer = record { frame = 40; message = none; owned = false }

abbrev sends_from : Usable net 2 1 sender
sends_from = record { here = refl; own = refl; attached = refl }

abbrev receives_at : Usable net 3 1 receiver
receives_at = record { here = refl; own = refl; attached = refl }

send_frame_lem_example :
    Returns
      (λ r t.
        ((r ≡ qfalse) × Owns ideal_laws ideal_lists t.objs 4 40 (9 ∷ 8 ∷ []))
        ⊎ ((r ≡ qtrue)
            × (((is_reuse (pos 0) ≡ true) × Owns ideal_laws ideal_lists t.objs 4 40 (9 ∷ 8 ∷ []))
                ⊎ ((is_reuse (pos 0) ≡ false)
                    × ((ideal_laws.view t.objs.world).frames 40 ≡ none)
                    × (t.objs.frame_objs 4 ≡ some no_longer)
                    × (Frame.gone 4 t.objs ≡ ok qtrue t.objs)
                    × (Frame.destroy 4 t.objs ≡ raise zmq_error t.objs)))))
      (λ e t. Owns ideal_laws ideal_lists t.objs 4 40 (9 ∷ 8 ∷ []))
      (send_frame ideal_wire 2 4 (int (pos 0)) peer)
send_frame_lem_example =
    send_frame_lem ideal_laws ideal_lists ideal_wire ideal_sends peer 2 1 sender sends_from 4 40
      (9 ∷ 8 ∷ []) (pos 0) owns

send_message_lem_example :
    Returns
      (λ r t.
        (r ≡ qnil)
        × (Message.gone 1 t.objs ≡ ok qtrue t.objs)
        × (t.objs.frame_objs ≡ peer.objs.frame_objs)
        × ((ideal_laws.view t.objs.world
              ≡ without (ideal_laws.view peer.objs.world) 10 (frames (cell2 ∷ cell3 ∷ [])))
            ⊎ (ideal_laws.view t.objs.world ≡ ideal_laws.view peer.objs.world)))
      (λ e t. ⊥)
      (send_message ideal_wire 2 1 peer)
send_message_lem_example =
    send_message_lem ideal_laws ideal_lists ideal_wire ideal_sends peer 2 1 sender sends_from 1
      (cell2 ∷ cell3 ∷ []) synced

recv_frame_lem_example :
    Returns
      (Received ideal_laws ideal_lists ideal_wire peer)
      (λ e t. ⊥)
      (recv_frame ideal_wire 3 peer)
    × Returns
        (Received ideal_laws ideal_lists ideal_wire peer)
        (λ e t. ⊥)
        (recv_frame_nonblock ideal_wire 3 peer)
recv_frame_lem_example =
    recv_frame_lem ideal_laws ideal_lists ideal_wire ideal_receives peer 3 1 receiver receives_at

transfer_lem_example :
    Returns
      (λ r t.
        (r ≡ obj 7)
        × ((ys : List Cell) × Synced ideal_laws ideal_lists t.objs 7 ys
            × (bytes ys ≡ (7 ∷ []) ∷ [] ∷ []))
        × (t.net.world.queue ≡ []))
      (λ e t. ⊥)
      ((send_message ideal_wire 2 1 >> recv_message ideal_wire 5 3) peer)
transfer_lem_example =
    transfer_lem ideal_laws ideal_lists ideal_wire peer 2 1 sender 3 1 receiver sends_from
      receives_at (ideal_pipe 21 22) 1 (cell2 ∷ cell3 ∷ []) 5 refl refl (λ e. cc) synced fresh
      (omega arith)
