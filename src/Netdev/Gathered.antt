-- ===== src/Netdev/Gathered.antt =====
-- The frame that the passes of `ena_netdev_rx_one` gather.
use mathlib.Core.Path.{subst}
use lib_ena.Prelude.{
  ℕ, ◌<◌, ◌≡◌, ◌≢◌, refl, sym, ap, ◌∙◌, Bool, true, false, ltb, Bool-cases, ◌⊎◌, inl, inr, Option,
  none, some, List, [], ◌∷◌, ◌++◌, length, arith,
}
use lib_ena.Ring.{Ring}
use lib_ena.Rx.Refill.{Allocator}
use lib_ena.Rx.Poll.{RxPkt, RxPolled, rx_poll}
use lib_ena.Rx.Serve.{RxServed}
use lib_ena.Netdev.Receive.{Fragment, RxNet, drop_chain, Step, done, more, fragment, polled}
use lib_ena.Netdev.Follows.{Follows}
use lib_ena.Netdev.Landed.{Landing, refused, whole, part}

-- A frame is not empty and leaves no chain.
abbrev pub Shape : Option (List Fragment) → RxNet → Type 0
Shape none s = Unit
Shape (some fs) s = (s.chain ≡ []) × (0 < length fs)

-- A step that keeps the ring in order; one that goes on leaves a chain.
abbrev pub Keeps : Ring → Step → Type 0
Keeps r (done frame s') = Follows r s'.io.ring × Shape frame s'
Keeps r (more s') = Follows r s'.io.ring × (0 < length s'.chain)

-- The chain that a poll leaves: that of before, or none if the ring has dropped a packet.
abbrev pub Left : RxPolled → List Fragment → List Fragment → Type 0
Left poll before c =
    ((poll.dropped_count ≡ some 0) × (c ≡ before))
    ⊎ ((n : ℕ) × (poll.dropped_count ≡ some n) × (n ≢ 0) × (c ≡ []))

polled-Left :
    (poll : RxPolled) (s : RxNet) (n : ℕ)
    → poll.dropped_count ≡ some n
    → Left poll s.chain (polled poll s).chain
unfolding polled drop_chain
polled-Left poll s n e = elim (Bool-cases (ltb 0 n)) [
  | inl b ↦ inr (n, e, ground (arith, b), rw (e, polled) (rw b refl))
  | inr b ↦ inl (e ∙ ap some (ground (arith, b)), rw (e, polled) (rw b refl))
]

polled-queue : (poll : RxPolled) (s : RxNet) → (polled poll s).io.queue ≡ poll.after.queue
unfolding polled drop_chain
polled-queue poll s =
    let dropped : Bool = elim poll.dropped_count [ none ↦ false | some n ↦ ltb 0 n ] in
    elim (Bool-cases dropped) [ inl e ↦ rw e refl | inr e ↦ rw e refl ]

module _ (alloc : Allocator) (has_data : ℕ → Bool) (buflen : ℕ → ℕ) where
  -- A pass from `s` that polls the packet `p` and puts its fragment `f` after the chain `c`.
  pub record Pass (s : RxNet) (p : RxPkt) (c : List Fragment) (f : Fragment) : Type 0 where
    pub poll : RxPolled
    pub runs : rx_poll 1 s.io ≡ some poll
    pub given : poll.pkts ≡ p ∷ []
    pub left : Left poll s.chain c
    pub made : fragment alloc has_data buflen p poll.after.queue ≡ some f

  -- A pass that goes on.
  pub record Longer (s s' : RxNet) : Type 0 where
    pub p : RxPkt
    pub c : List Fragment
    pub f : Fragment
    pub pass : Pass s p c f
    pub not_last : p.last ≡ false
    pub begun : (c ≢ []) ⊎ (p.first ≡ true)
    pub chain : s'.chain ≡ c ++ (f ∷ [])
    pub follows : Follows pass.poll.after.ring s'.io.ring

  -- The passes that gather a frame.
  pub data Gathers : RxNet → List Fragment → Type 0 where
    ends :
        (s : RxNet) (p : RxPkt) (c : List Fragment) (f : Fragment) (frame : List Fragment)
        → Pass s p c f
        → (p.last ≡ true) ⊎ ((c ≡ []) × (p.first ≡ false))
        → frame ≡ c ++ (f ∷ [])
        → Gathers s frame
    goes_on :
        (s s' : RxNet) (frame : List Fragment) → Longer s s' → Gathers s' frame → Gathers s frame

  abbrev pub FrameOf : RxNet → Option (List Fragment) → Type 0
  FrameOf s none = Unit
  FrameOf s (some frame) = Gathers s frame

  -- What a pass gives: a frame, or a longer chain.
  abbrev pub Gave : RxNet → Step → Type 0
  Gave s (done frame s') = FrameOf s frame
  Gave s (more s') = Longer s s'

  pub Longer-FrameOf :
      (s s' : RxNet) (frame : Option (List Fragment))
      → Longer s s'
      → FrameOf s' frame
      → FrameOf s frame
  Longer-FrameOf s s' none l g = tt
  Longer-FrameOf s s' (some frame) l g = goes_on s s' frame l g

  abbrev passed :
      (s : RxNet) (poll : RxPolled)
      → rx_poll 1 s.io ≡ some poll
      → RxServed 1 s.io poll
      → (p : RxPkt) → poll.pkts ≡ p ∷ []
      → (f : Fragment) → fragment alloc has_data buflen p (polled poll s).io.queue ≡ some f
      → Pass s p (polled poll s).chain f
  passed s poll runs served p given f o = record {
    poll = poll;
    runs = runs;
    given = given;
    left = polled-Left poll s served.dropped served.drops;
    made = ap (fragment alloc has_data buflen p) (sym (polled-queue poll s)) ∙ o;
  }

  pub Landing-Gave :
      (s : RxNet) (poll : RxPolled)
      → rx_poll 1 s.io ≡ some poll
      → RxServed 1 s.io poll
      → (p : RxPkt) → poll.pkts ≡ p ∷ []
      → (x : Step) (t : RxNet)
      → Landing p (fragment alloc has_data buflen p (polled poll s).io.queue) (polled poll s) x t
      → Keeps poll.after.ring x
      → Gave s x
  Landing-Gave s poll runs served p given x t (refused o e c g) k = subst (Gave s) (sym e) tt
  Landing-Gave s poll runs served p given x t (whole f o last e c g) k =
      subst (Gave s) (sym e)
        (ends s p (polled poll s).chain f _ (passed s poll runs served p given f o) last refl)
  Landing-Gave s poll runs served p given x t (part f o last begun e c g) k =
      subst (Gave s) (sym e) (record {
        p = p;
        c = (polled poll s).chain;
        f = f;
        pass = passed s poll runs served p given f o;
        not_last = last;
        begun = begun;
        chain = c;
        follows = (subst (Keeps poll.after.ring) e k).0;
      })
