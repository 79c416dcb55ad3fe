-- ===== src/Consensus/Proposer/Overlap.antt =====
-- consensus/proposer.go: calls of Propose that overlap. Propose takes no lock; AlreadyProposed and
-- MarkAsProposed (replica/state.go) each hold one for themselves, so a call is three steps here, and
-- those of different calls come in any order.
use klef.Prelude.{
  ℤ, pos, ◌≤ℤ◌, ◌<ℤ◌, ◌≡◌, ◌≢◌, ◌↔◌, refl, inl, inr, false, some, List, [], ◌∷◌, ◌++◌, arith, add64,
  leb_ℤ, ltb_ℤ, Member, All, All-mono, All-member, Bool-cases,
}
use klef.Types.Hash.{Hash, Bytes}
use klef.Types.Vertex.{QcType, Vertex}
use klef.Types.Message.{Message}
use klef.Consensus.Proposer.{already_proposed, mark_as_proposed, build_vertex, propose}

-- A call of Propose to which CheckQuorum gave a quorum.
pub record Call : Type 0 where
  pub qc_type : QcType
  pub votes : List Message
  pub voted_round : ℤ
  pub now : ℤ

-- The round that it proposes for.
abbrev pub next_round : Call → ℤ
next_round c = add64 c.voted_round (pos 1)

-- AlreadyProposed answers no; Broadcast; MarkAsProposed.
pub data Event : Type 0 where
  checks : Call → Event
  sends : Call → Event
  marks : Call → Event

-- The replica's round, the calls between AlreadyProposed and Broadcast, and those between Broadcast and
-- MarkAsProposed.
pub record Board : Type 0 where
  pub last_proposed_round : ℤ
  pub checked : List Call
  pub unmarked : List Call

pub data Step (b : Board) : Event → Board → Type 0 where
  check :
      (c : Call)
      → already_proposed (next_round c) b.last_proposed_round ≡ false
      → Step b (checks c) (record b { checked = c ∷ b.checked })
  send :
      (c : Call) (before after : List Call)
      → b.checked ≡ before ++ c ∷ after
      → Step b (sends c) (record b { checked = before ++ after; unmarked = c ∷ b.unmarked })
  mark :
      (c : Call) (before after : List Call)
      → b.unmarked ≡ before ++ c ∷ after
      → Step b (marks c) (record b {
        last_proposed_round = mark_as_proposed (next_round c) b.last_proposed_round;
        unmarked = before ++ after;
      })

-- A run with its events, the latest first.
pub data Run (b : Board) : List Event → Board → Type 0 where
  begins : Run b [] b
  goes_on : {es : List Event} {e : Event} {t u : Board} → Run b es t → Step t e u → Run b (e ∷ es) u

mark_as_proposed-le :
    (round last : ℤ)
    → (last ≤ℤ mark_as_proposed round last) × (round ≤ℤ mark_as_proposed round last)
unfolding mark_as_proposed
mark_as_proposed-le round last = elim (Bool-cases (ltb_ℤ last round)) [
  | inl later ↦ rw later (ground (arith, later), omega arith)
  | inr old ↦ rw old (omega arith, ground (arith, old))
]

Step-le :
    (b : Board) (e : Event) (u : Board)
    → Step b e u
    → b.last_proposed_round ≤ℤ u.last_proposed_round
Step-le b e u (check c free) = omega arith
Step-le b e u (send c before after at) = omega arith
Step-le b e u (mark c before after at) =
    (mark_as_proposed-le (next_round c) b.last_proposed_round).0

Run-le :
    (b : Board) (es : List Event) (u : Board)
    → Run b es u
    → b.last_proposed_round ≤ℤ u.last_proposed_round
Run-le b es u begins = omega arith
Run-le b es u (goes_on {es = fs} {e = e} {t = t} r s) =
    omega (arith, Run-le b fs t r, Step-le t e u s)

-- A proposal that was marked is for no round after the last one.
abbrev IsNoted : ℤ → Event → Type 0
IsNoted last (checks c) = Unit
IsNoted last (sends c) = Unit
IsNoted last (marks c) = next_round c ≤ℤ last

IsNoted-mono : (a b : ℤ) → a ≤ℤ b → (e : Event) → IsNoted a e → IsNoted b e
IsNoted-mono a b l (checks c) n = tt
IsNoted-mono a b l (sends c) n = tt
IsNoted-mono a b l (marks c) n = omega (arith, l, n)

Step-IsNoted : (b : Board) (e : Event) (u : Board) → Step b e u → IsNoted u.last_proposed_round e
Step-IsNoted b e u (check c free) = tt
Step-IsNoted b e u (send c before after at) = tt
Step-IsNoted b e u (mark c before after at) =
    (mark_as_proposed-le (next_round c) b.last_proposed_round).1

Run-IsNoted :
    (b : Board) (es : List Event) (u : Board) → Run b es u → All (IsNoted u.last_proposed_round) es
Run-IsNoted b es u begins = tt
Run-IsNoted b es u (goes_on {es = fs} {e = e} {t = t} r s) = (
  Step-IsNoted t e u s,
  All-mono _ _ fs (IsNoted-mono t.last_proposed_round u.last_proposed_round (Step-le t e u s))
      (Run-IsNoted b fs t r),
)

-- A check that lets a call through is for a round after the last one.
abbrev IsAfter : ℤ → Event → Type 0
IsAfter last (checks c) = last <ℤ next_round c
IsAfter last (sends c) = Unit
IsAfter last (marks c) = Unit

Step-IsAfter :
    (last : ℤ) (b : Board) (e : Event) (u : Board)
    → last ≤ℤ b.last_proposed_round
    → Step b e u
    → IsAfter last e
unfolding already_proposed
Step-IsAfter last b e u l (check c free) = ground (arith, l, free)
Step-IsAfter last b e u l (send c before after at) = tt
Step-IsAfter last b e u l (mark c before after at) = tt

Run-IsAfter :
    (b : Board) (es : List Event) (u : Board) → Run b es u → All (IsAfter b.last_proposed_round) es
Run-IsAfter b es u begins = tt
Run-IsAfter b es u (goes_on {es = fs} {e = e} {t = t} r s) =
    (Step-IsAfter b.last_proposed_round t e u (Run-le b fs t r) s, Run-IsAfter b fs t r)

-- Both calls pass the check before either is marked.
both_pass :
    (s : Board) (c c' : Call)
    → s.last_proposed_round <ℤ next_round c
    → next_round c ≡ next_round c'
    → (u : Board) × Run s (sends c' ∷ sends c ∷ checks c' ∷ checks c ∷ []) u
unfolding already_proposed
both_pass s c c' later same =
    let free : leb_ℤ (next_round c) s.last_proposed_round ≡ false = ground (arith, later) in
    let free' : leb_ℤ (next_round c') s.last_proposed_round ≡ false = ground (arith, later, same) in
    let r1 : Run s (checks c ∷ []) _ = goes_on begins (check c free) in
    let r2 : Run s (checks c' ∷ checks c ∷ []) _ = goes_on r1 (check c' free') in
    let r3 : Run s (sends c ∷ checks c' ∷ checks c ∷ []) _ =
      goes_on r2 (send c (c' ∷ []) s.checked refl) in
    (_, goes_on r3 (send c' [] s.checked refl))

module _ (sha256 : Bytes → Hash) (sign : Bytes → Bytes) (id : ℤ) where
  -- What the call broadcasts.
  abbrev pub vertex_of : Call → Vertex
  vertex_of c = build_vertex sha256 sign id c.votes c.voted_round c.qc_type c.now

  -- A run from here in which each of the calls passes its check and broadcasts.
  abbrev pub BothSend : Board → Call → Call → Type 0
  BothSend s c c' =
      (es : List Event) × (u : Board) × Run s es u
      × (Member (checks c) es × Member (checks c') es)
      × (Member (sends c) es × Member (sends c') es)

  vertex_of-round : (c : Call) → (vertex_of c).round ≡ next_round c
  unfolding build_vertex
  vertex_of-round c = refl

  -- However calls of Propose overlap: a proposal that was marked is for an earlier round than every call
  -- that passes its check later. And two calls with different vertices of one round can both pass their
  -- check and broadcast from here on exactly when that round is after the one that the replica notes. So
  -- two proposals for one round can be made, by calls that both pass their check before either is marked.
  pub overlapping_calls :
      (b s u : Board) (es fs : List Event) (c c' : Call)
      → Run b es s
      → Run s fs u
      → (vertex_of c).round ≡ (vertex_of c').round
      → vertex_of c ≢ vertex_of c'
      → ((m x : Call)
          → Member (marks m) es
          → Member (checks x) fs
          → (vertex_of m).round <ℤ (vertex_of x).round)
        × (BothSend s c c' ↔ (s.last_proposed_round <ℤ (vertex_of c).round))
  unfolding build_vertex
  overlapping_calls b s u es fs c c' r later_run same differ = (
    λ m x marked passed.
        let noted =
          All-member (IsNoted s.last_proposed_round) es (marks m) (Run-IsNoted b es s r) marked in
        let after =
          All-member (IsAfter s.last_proposed_round) fs (checks x) (Run-IsAfter s fs u later_run)
            passed in
        omega (arith, noted, after),
    (
      λ (gs, w, r', passed, sent).
          All-member (IsAfter s.last_proposed_round) gs (checks c) (Run-IsAfter s gs w r') passed.0,
      λ later.
          let (w, run) = both_pass s c c' later same in
          (
            _,
            w,
            run,
            (inr (inr (inr (inl refl))), inr (inr (inl refl))),
            (inr (inl refl), inl refl),
          ),
    ),
  )

  -- A call that nothing overlaps goes through the three steps as `propose` has it.
  propose-Run :
      (c : Call) (last : ℤ) (v : Vertex) (last' : ℤ)
      → propose sha256 sign id c.qc_type (some (c.votes, c.voted_round)) c.now last
        ≡ (last', some v)
      → Run
          (record { last_proposed_round = last; checked = []; unmarked = [] })
          (marks c ∷ sends c ∷ checks c ∷ [])
          (record {
            last_proposed_round = mark_as_proposed (next_round c) last;
            checked = [];
            unmarked = [];
          })
  unfolding propose
  propose-Run c last v last' e = elim (Bool-cases (already_proposed (next_round c) last)) [
    | inl old ↦ absurd (ground (arith, e, old))
    | inr free ↦
        let idle : Board = record { last_proposed_round = last; checked = []; unmarked = [] } in
        let r1 : Run idle (checks c ∷ []) _ = goes_on begins (check c free) in
        let r2 : Run idle (sends c ∷ checks c ∷ []) _ = goes_on r1 (send c [] [] refl) in
        goes_on r2 (mark c [] [] refl)
  ]
