-- ===== src/Sched/Setup.antt =====
-- What nkit_init leaves in the context.
use libnumakit.Prelude.{
  ℕ, ◌<◌, ◌≡◌, refl, sym, ◌∙◌, ap, Bool, true, false, none, some, List, [], leb, if◌then◌else◌,
  arith,
}
use mathlib.Core.Path.{subst}
use libnumakit.Memory.Os.{Os, World}
use libnumakit.Sched.Context.{
  Context, Topology, blank, init, init_mailboxes, make_mailboxes, cache, default_mpki,
}
use libnumakit.Sched.Messaging.{send, process_local, ring_of}

-- What a call of `init` in a context that is not set up may come to.
abbrev pub Set : Topology → Os → Context → Bool × Context × World → Type 0
Set t os c (false, c', w') = (c'.initialized ≡ false) × (c'.mailboxes ≡ c.mailboxes)
Set t os c (true, c', w') =
    (c'.initialized ≡ true)
    × (0 < c'.num_nodes)
    × (c'.num_pus ≡ t.pus)
    × (c'.numa_supported ≡ os.numa_available)
    × (c'.threshold ≡ default_mpki)

init_cases :
    (os : Os) (t : Topology) (c : Context) (w : World) (b : Bool) (boxed : Context × World)
    → b ≡ false
    → (boxed.0.initialized ≡ true)
    → (boxed.0.numa_supported ≡ os.numa_available)
    → c.initialized ≡ false
    → Set t os c (
        if b
        then (true, c, w)
        else if t.can_init
        then if t.can_load
          then (true, cache t boxed.0, boxed.1)
          else (false, record c { numa_supported = os.numa_available; topo = false }, w)
        else (false, record c { numa_supported = os.numa_available }, w))
unfolding cache
init_cases os t c w b boxed set hi hn off = ground arith

init_mailboxes_keeps :
    (os : Os) (c : Context) (w : World)
    → ((init_mailboxes os c w).0.initialized ≡ c.initialized)
      × ((init_mailboxes os c w).0.numa_supported ≡ c.numa_supported)
unfolding init_mailboxes
init_mailboxes_keeps os c w = ground arith

pub init-Set :
    (os : Os) (t : Topology) (c : Context) (w : World)
    → c.initialized ≡ false
    → Set t os c (init os t c w)
unfolding init
init-Set os t c w off =
    let on = record c { numa_supported = os.numa_available; initialized = true; topo = true } in
    let (i, n) = init_mailboxes_keeps os on w in
    init_cases os t c w c.initialized (init_mailboxes os on w) off i n off

init_on :
    (os : Os) (t : Topology) (c : Context) (w : World)
    → c.initialized ≡ true
    → init os t c w ≡ (true, c, w)
unfolding init
init_on os t c w on = ground arith

-- A second call changes nothing and reports success.
pub init_again :
    (os os' : Os) (t t' : Topology) (c c' : Context) (w w' w'' : World)
    → c.initialized ≡ false
    → init os t c w ≡ (true, c', w')
    → init os' t' c' w'' ≡ (true, c', w'')
init_again os os' t t' c c' w w' w'' off e =
    let s : Set t os c (true, c', w') = subst (Set t os c) e (init-Set os t c w off) in
    init_on os' t' c' w'' s.0

-- The mailboxes are counted before the nodes are: none is made.
init-blank : (os : Os) (t : Topology) (w : World) → (init os t blank w).1.mailboxes ≡ []
unfolding init init_mailboxes make_mailboxes cache
init-blank os t w = ground arith

-- After the first `nkit_init` of the program has succeeded, a message to node 0, and the processing
-- of its messages, read a mailbox that was not made.
pub send-init-blank :
    (os : Os) (t : Topology) (w w' : World) (c : Context) (rounds : List Bool) (x : ℕ)
    → init os t blank w ≡ (true, c, w')
    → (send rounds c (some 0) x ≡ none)
      × ((fuel limit : ℕ) → process_local fuel rounds c (some 0) limit ≡ none)
unfolding send process_local ring_of
send-init-blank os t w w' c rounds x e =
    let empty : c.mailboxes ≡ [] = ap (λ r. r.1.mailboxes) (sym e) ∙ init-blank os t w in
    let s : Set t os blank (true, c, w') = subst (Set t os blank) e (init-Set os t blank w refl) in
    let in_range = positive_leb c.num_nodes s.1 in
    (rw (in_range, empty) refl, λ fuel limit. rw (in_range, empty) refl)
  where
    positive_leb : (n : ℕ) → 0 < n → leb n 0 ≡ false
    positive_leb n h = ground arith
