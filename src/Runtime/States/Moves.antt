-- ===== src/Runtime/States/Moves.antt =====
-- The residency states as a state machine: what `transition` and `mark_gpu_resident` do.
use tile_mem.Common.{
  str_eq, if◌then◌else◌, str_eq_iff, str_eq_refl, insert, get_or, lookup-insert, ok, reject,
  >>-eq-ok, ok-injective, String, ◌≡◌, refl, ap, subst, ◌↔◌, Bool, true, ◌||◌, arith,
}
use tile_mem.Runtime.States.{
  Residency, cold_storage, cpu_resident, pinned_ready, gpu_prefetching, gpu_resident, gpu_executing,
  evicting, kt_fallback_state, residency_eq, may_move, TileStates, state_of, transition, mark_from,
  mark_gpu_resident,
}

-- The moves of a tile, one for each entry of the table, and staying where it is.
pub data Move : Residency → Residency → Type 0 where
  load : Move cold_storage cpu_resident
  give_up_cold : Move cold_storage kt_fallback_state
  pin : Move cpu_resident pinned_ready
  evict_cpu : Move cpu_resident evicting
  give_up_cpu : Move cpu_resident kt_fallback_state
  prefetch : Move pinned_ready gpu_prefetching
  evict_pinned : Move pinned_ready evicting
  give_up_pinned : Move pinned_ready kt_fallback_state
  arrive : Move gpu_prefetching gpu_resident
  give_up_prefetching : Move gpu_prefetching kt_fallback_state
  launch : Move gpu_resident gpu_executing
  evict_gpu : Move gpu_resident evicting
  retire : Move gpu_executing gpu_resident
  evict_executing : Move gpu_executing evicting
  demote : Move evicting cpu_resident
  drop : Move evicting cold_storage
  recover_cold : Move kt_fallback_state cold_storage
  recover_cpu : Move kt_fallback_state cpu_resident
  stay : (s : Residency) → Move s s

-- `next` may follow `current`: it is listed, or it is the same state.
abbrev pub accepts : Residency → Residency → Bool
accepts current next = may_move current next || residency_eq next current

Move→accepts : {a b : Residency} → Move a b → accepts a b ≡ true
unfolding may_move
Move→accepts load = refl
Move→accepts (stay cold_storage) = refl
Move→accepts (stay s) = refl
Move→accepts m = refl

accepts→Move : (a b : Residency) → accepts a b ≡ true → Move a b
unfolding may_move
accepts→Move cold_storage cpu_resident h = load
accepts→Move cold_storage kt_fallback_state h = give_up_cold
accepts→Move cpu_resident pinned_ready h = pin
accepts→Move cpu_resident evicting h = evict_cpu
accepts→Move cpu_resident kt_fallback_state h = give_up_cpu
accepts→Move pinned_ready gpu_prefetching h = prefetch
accepts→Move pinned_ready evicting h = evict_pinned
accepts→Move pinned_ready kt_fallback_state h = give_up_pinned
accepts→Move gpu_prefetching gpu_resident h = arrive
accepts→Move gpu_prefetching kt_fallback_state h = give_up_prefetching
accepts→Move gpu_resident gpu_executing h = launch
accepts→Move gpu_resident evicting h = evict_gpu
accepts→Move gpu_executing gpu_resident h = retire
accepts→Move gpu_executing evicting h = evict_executing
accepts→Move evicting cpu_resident h = demote
accepts→Move evicting cold_storage h = drop
accepts→Move kt_fallback_state cold_storage h = recover_cold
accepts→Move kt_fallback_state cpu_resident h = recover_cpu
accepts→Move cold_storage cold_storage h = stay cold_storage
accepts→Move cpu_resident cpu_resident h = stay cpu_resident
accepts→Move pinned_ready pinned_ready h = stay pinned_ready
accepts→Move gpu_prefetching gpu_prefetching h = stay gpu_prefetching
accepts→Move gpu_resident gpu_resident h = stay gpu_resident
accepts→Move gpu_executing gpu_executing h = stay gpu_executing
accepts→Move evicting evicting h = stay evicting
accepts→Move kt_fallback_state kt_fallback_state h = stay kt_fallback_state
accepts→Move _ _ h = absurd (cc h)

pub state_of-insert :
    (k j : String) (s : Residency) (states : TileStates)
    → state_of j (insert k s states) ≡ (if str_eq k j then s else state_of j states)
unfolding state_of get_or
state_of-insert k j s states = ground (arith, lookup-insert k j s states)

pub state_of-insert_self :
    (k : String) (s : Residency) (states : TileStates) → state_of k (insert k s states) ≡ s
state_of-insert_self k s states = rw (state_of-insert k k s states, str_eq_refl k)

-- A transition that succeeds sets the tile's state and leaves every other tile's.
pub state_of-transition :
    (k j : String) (next : Residency) (s s' : TileStates)
    → transition k next s ≡ ok s'
    → state_of j s' ≡ (if str_eq k j then next else state_of j s)
unfolding transition
state_of-transition k j next s s' h =
    let (_, e) = >>-eq-ok (reject _ _) (ok (insert k next s)) h in
    subst (λ x. state_of j x ≡ (if str_eq k j then next else state_of j s)) (ok-injective e)
      (state_of-insert k j next s)

pub transition-accepts :
    (k : String) (next : Residency) (s : TileStates)
    → accepts (state_of k s) next ≡ true
    → transition k next s ≡ ok (insert k next s)
unfolding transition
transition-accepts k next s h = ground arith

-- A transition succeeds exactly if the machine has that move from the tile's present state.
pub transition_iff :
    (k : String) (next : Residency) (s : TileStates)
    → ((s' : TileStates) × (transition k next s ≡ ok s')) ↔ Move (state_of k s) next
transition_iff k next s = (
  λ (s', h). accepts→Move (state_of k s) next (accepted s' h),
  λ m. (insert k next s, transition-accepts k next s (Move→accepts m)),
)
  where
    accepted : (s' : TileStates) → transition k next s ≡ ok s' → accepts (state_of k s) next ≡ true
    accepted s' h = unfold transition in ground arith

-- Where `mark_gpu_resident` takes a tile: the states below the GPU go up, the others stay.
abbrev pub marked : Residency → Residency
marked cold_storage = gpu_resident
marked cpu_resident = gpu_resident
marked pinned_ready = gpu_resident
marked gpu_prefetching = gpu_resident
marked s = s

-- The step from a known state.
pub step :
    (k : String) (a b : Residency) (s : TileStates)
    → state_of k s ≡ a
    → accepts a b ≡ true
    → transition k b s ≡ ok (insert k b s)
step k a b s e h = transition-accepts k b s (rw e h)

-- The dictionary that `mark_from` ends with.
marking : Residency → String → TileStates → TileStates
marking cold_storage k s =
    insert k gpu_resident
      (insert k gpu_prefetching (insert k pinned_ready (insert k cpu_resident s)))
marking cpu_resident k s =
    insert k gpu_resident (insert k gpu_prefetching (insert k pinned_ready s))
marking pinned_ready k s = insert k gpu_resident (insert k gpu_prefetching s)
marking gpu_prefetching k s = insert k gpu_resident s
marking _ k s = s

mark_from-marking :
    (r : Residency) (k : String) (s : TileStates)
    → state_of k s ≡ r
    → mark_from r k s ≡ ok (marking r k s)
unfolding mark_from marking may_move
mark_from-marking cold_storage k s e =
    let s₁ = insert k cpu_resident s in
    let s₂ = insert k pinned_ready s₁ in
    let s₃ = insert k gpu_prefetching s₂ in
    rw
      (
        step k cold_storage cpu_resident s e refl,
        step k cpu_resident pinned_ready s₁ (state_of-insert_self k cpu_resident s) refl,
        step k pinned_ready gpu_prefetching s₂ (state_of-insert_self k pinned_ready s₁) refl,
      )
      (step k gpu_prefetching gpu_resident s₃ (state_of-insert_self k gpu_prefetching s₂) refl)
mark_from-marking cpu_resident k s e =
    let s₂ = insert k pinned_ready s in
    let s₃ = insert k gpu_prefetching s₂ in
    rw
      (
        step k cpu_resident pinned_ready s e refl,
        step k pinned_ready gpu_prefetching s₂ (state_of-insert_self k pinned_ready s) refl,
      )
      (step k gpu_prefetching gpu_resident s₃ (state_of-insert_self k gpu_prefetching s₂) refl)
mark_from-marking pinned_ready k s e =
    rw (step k pinned_ready gpu_prefetching s e refl)
      (step k gpu_prefetching gpu_resident _ (state_of-insert_self k gpu_prefetching s) refl)
mark_from-marking gpu_prefetching k s e = step k gpu_prefetching gpu_resident s e refl
mark_from-marking _ k s e = refl

state_of-marking :
    (r : Residency) (k j : String) (s : TileStates)
    → state_of k s ≡ r
    → state_of j (marking r k s) ≡ (if str_eq k j then marked r else state_of j s)
unfolding marking
state_of-marking cold_storage k j s e = simp (state_of-insert) (ground arith)
state_of-marking cpu_resident k j s e = simp (state_of-insert) (ground arith)
state_of-marking pinned_ready k j s e = simp (state_of-insert) (ground arith)
state_of-marking gpu_prefetching k j s e = simp (state_of-insert) (ground arith)
state_of-marking _ k j s e = ground (arith, str_eq_iff k j, ap (λ x. state_of x s) {x = k} {y = j})

-- `mark_gpu_resident` never raises. It puts a tile that is in cold storage, on the CPU, pinned or
-- being prefetched on the GPU, leaves one in another state there, and touches no other tile.
pub mark_gpu_resident_lem :
    (k : String) (s : TileStates)
    → (s' : TileStates) × (mark_gpu_resident k s ≡ ok s')
      × ((j : String)
          → state_of j s' ≡ (if str_eq k j then marked (state_of k s) else state_of j s))
unfolding mark_gpu_resident
mark_gpu_resident_lem k s = (
  marking (state_of k s) k s,
  mark_from-marking (state_of k s) k s refl,
  λ j. state_of-marking (state_of k s) k j s refl,
)
