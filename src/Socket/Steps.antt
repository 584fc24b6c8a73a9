-- ===== src/Socket/Steps.antt =====
-- Whatever order a program and the collector close a context and its sockets in, by
-- ext/rbczmq/context.c and ext/rbczmq/socket.c.
use rbczmq.Base.{
  ℕ, Bool, false, ◌||◌, if◌then◌else◌, ◌≤◌, ◌<◌, arith, ◌≡◌, refl, sym, subst, ◌∙◌, inl, inr,
  Option, none, some, List, [], ◌∷◌, length, ℤ, Exc, Run, Cmd, ok, raise, fault, pure, Returns,
  returns, raises, Returns-bind, Returns-mono, Bool-cases, Option-cases, ◌>>◌, ◌==◌, ==_self, ne→==,
}
use rbczmq.Context.{free_ctx_gc, free_sock_gc, destroy, socket}
use rbczmq.Context.Closing.{Member, live}
use rbczmq.Context.Freeing.{Freed, free_ctx_lem}
use rbczmq.Context.Members.{without, length-without, Found, member-cases, closed-cases}
use rbczmq.Context.Single.{destroy_frees}
use rbczmq.Czmq.{Ptr}
use rbczmq.Czmq.Zlist.{Zlist, ListLaws}
use rbczmq.Net.{Zsocket, Closing, Net, Sock, disconnected}
use rbczmq.Objects.{int}
use rbczmq.Socket.{close}
use rbczmq.Socket.Idle.{free_Done, close_Done}
use rbczmq.Socket.Lives.{Lives, Ended, destroyed_of, leave, Lives-without, Lives-Done}

-- The list has the reference.
abbrev pub holds : ℕ → List ℕ → Bool
holds u [] = false
holds u (w ∷ ws) = (u == w) || holds u ws

pub holds-none : (u : ℕ) (ws : List ℕ) → ws ≡ [] → holds u ws ≡ false
holds-none u [] h = refl
holds-none u (w ∷ ws) h = cc

-- What a program does with a context and its sockets, what the collector does, and a fork or a
-- change of the thread, after which another process or thread runs.
pub data Op : Type 0 where
  opens : ℤ → Op
  closes collects : ℕ → Op
  destroys collects_context : Op
  forks enters : ℕ → Op

module _ {S A : Type 0} where
  -- The program rescues what is raised.
  abbrev pub rescued : Run S A → Run S (Unit {0})
  rescued (ok a s) = ok tt s
  rescued (raise e s) = ok tt s
  rescued fault = fault

  -- Of an object with a struct that the collector has not taken before.
  abbrev pub on_some : Option A → Cmd S (Unit {0}) → Cmd S (Unit {0})
  on_some none m s = ok tt s
  on_some (some a) m s = m s

  pub Returns-rescued :
      {P : A → S → Type 0} {Q : Exc → S → Type 0} (R : S → Type 0) {r : Run S A}
      → Returns P Q r
      → ((a : A) (s : S) → P a s → R s)
      → ((e : Exc) (s : S) → Q e s → R s)
      → Returns (λ a s. R s) (λ e s. ⊥) (rescued r)
  Returns-rescued R (returns p) f g = returns (f _ _ p)
  Returns-rescued R (raises q) f g = returns (g _ _ q)

module _ {n : Zsocket} {z : Zlist} where
  abbrev pub perform : (fuel context : ℕ) → Op → Cmd (Net n z) (Unit {0})
  perform f v (opens t) s = rescued (socket v (int t) s)
  perform f v (closes u) s = rescued (close u s)
  perform f v (collects u) s =
      if holds u s.dangling then free_sock_gc u s else on_some (s.socks u) (free_sock_gc u) s
  perform f v destroys s = rescued (destroy f v s)
  perform f v collects_context s = on_some (s.ctxs v) (free_ctx_gc f v) s
  perform f v (forks p) s = ok tt (record s { pid = p })
  perform f v (enters th) s = ok tt (record s { thread = th })

  abbrev pub perform_all : (fuel context : ℕ) → List Op → Cmd (Net n z) (Unit {0})
  perform_all f v [] = pure tt
  perform_all f v (o ∷ os) = perform f v o >> perform_all f v os

module _ {n : Zsocket} {z : Zlist} (laws : Closing n) (lists : ListLaws z) where
  module _ (s : Net n z) (v : ℕ) (ms : List Member) (x : Ptr) (p : ℕ) (l : z.L)
      (y : Lives laws lists s v ms x p l) where
    freed : (t : Net n z) → Freed laws lists s t v ms p → Ended laws lists t v
    freed t d = record {
      context = inr (p, d.context);
      done = λ u k e. elim (closed-cases t.socks (laws.is_open t.world) v u ms d.marks) [
        | inl out ↦ y.others u k (sym (d.other_socks u out) ∙ e) out
        | inr (m, g) ↦ inl (destroyed_of (live v m) e g)
      ];
      sound = d.dangling ∙ y.sound;
    }

    pub destroy-Lives :
        (f : ℕ)
        → length ms < f
        → Returns
            (λ r t. Ended laws lists t v)
            (λ e t. Lives laws lists t v ms x p l)
            (destroy f v s)
    destroy-Lives f h =
        Returns-mono (destroy_frees laws lists f s v ms x p l y.context y.items y.owned h)
          (λ r t d. freed t d.2) (λ e t q. subst (λ i. Lives laws lists i v ms x p l) (sym q.2) y)

    pub free_ctx_gc-Lives :
        (f : ℕ)
        → length ms < f
        → Returns (λ r t. Ended laws lists t v) (λ e t. ⊥) (free_ctx_gc f v s)
    unfolding free_ctx_gc
    free_ctx_gc-Lives f h = rw (y.context) (
        rw (ne→== y.nonnull) (
          Returns-bind (free_ctx_lem laws lists f s v ms x p l y.context y.items y.owned h) λ r t d.
            returns (record {
              context = inl (rw (==_self v) refl);
              done = (freed t d).done;
              sound = (freed t d).sound;
            })))

    -- The context lives with no more sockets than before.
    abbrev pub Fewer : Net n z → Type 0
    Fewer t =
        (ms' : List Member) × (l' : z.L) × Lives laws lists t v ms' x p l'
        × (length ms' ≤ length ms)

    free_member :
        (u : ℕ) (f : Found s.socks (laws.is_open s.world) v u ms)
        → Returns (λ r t. Fewer t) (λ e t. ⊥) (free_sock_gc f.member.ref s)
    unfolding free_sock_gc
    free_member u f =
        Returns-bind
          (leave laws lists s v u ms x p l y f f.member.state s.socks f.here (λ q h. refl))
          λ r t d. returns (
            without u ms,
            z.zlist_remove f.member.ref l,
            Lives-without laws lists t v f.member.ref (without u ms) x p _ f.no_ref d,
            length-without u ms,
          )

    pub free_sock_gc-Lives :
        (u : ℕ) (k : Sock)
        → s.socks u ≡ some k
        → Returns (λ r t. Fewer t) (λ e t. ⊥) (free_sock_gc u s)
    free_sock_gc-Lives u k here =
        elim (member-cases s.socks (laws.is_open s.world) v u ms y.owned) [
          | inr f ↦
              subst (λ q. Returns (λ r t. Fewer t) (λ e t. ⊥) (free_sock_gc q s)) f.same
                (free_member u f)
          | inl out ↦
              Returns-mono
                (free_Done u (λ t. Lives laws lists t v ms x p l)
                  (λ t i q g d. Lives-Done laws lists t v u i ms x p l out g d q)
                  (λ t q. Lives-without laws lists t v u ms x p l out q) s k y here
                  (y.others u k here out))
                (λ r t q. (ms, l, q, omega arith)) (λ e t q. q)
        ]

    close_member :
        (u : ℕ) (f : Found s.socks (laws.is_open s.world) v u ms)
        → Returns (λ r t. Fewer t) (λ e t. Fewer t) (close f.member.ref s)
    unfolding close
    close_member u f = rw (f.here) (elim (Bool-cases (f.member.thread == s.thread)) [
      | inr other ↦ rw other (raises (ms, l, y, omega arith))
      | inl own ↦ rw own (
          Returns-bind
            (Returns-mono
              (leave laws lists s v u ms x p l y f disconnected _ (rw (==_self f.member.ref) refl)
                (λ q h. rw (ne→== h) refl))
              (λ r t d. d) (λ e t q. absurd q))
            λ r t d. returns (without u ms, _, d, length-without u ms))
    ])

    pub close-Lives : (u : ℕ) → Returns (λ r t. Fewer t) (λ e t. Fewer t) (close u s)
    unfolding close
    close-Lives u = elim (member-cases s.socks (laws.is_open s.world) v u ms y.owned) [
      | inr f ↦
          subst (λ q. Returns (λ r t. Fewer t) (λ e t. Fewer t) (close q s)) f.same
            (close_member u f)
      | inl out ↦ elim (Option-cases (s.socks u)) [
        | inl absent ↦ rw absent (raises (ms, l, y, omega arith))
        | inr (k, here) ↦
            Returns-mono
              (close_Done u (λ t. Lives laws lists t v ms x p l)
                (λ t i q g d. Lives-Done laws lists t v u i ms x p l out g d q)
                (λ t q. Lives-without laws lists t v u ms x p l out q) s k k.destroyed y here
                (y.others u k here out))
              (λ r t q. (ms, l, q, omega arith)) (λ e t q. (ms, l, q, omega arith))
      ]
    ]
