-- ===== src/ToolCatalogue/Discovery.antt =====
-- `_ensure_tools_loaded_async` under any interleaving of its callers: a caller runs from one await to
-- the next, and the lock of the discovery is held across the gateway's answer.
use langgraph_agents.Base.{
  ℕ, suc, ◌≤◌, ◌≡◌, refl, sym, ◌∙◌, ◌==◌, Bool, true, false, Option, none, some, List,
  if◌then◌else◌, Text, arith,
}
use langgraph_agents.ToolCatalogue.{ToolCache, discovered}

-- Where a caller stands: before its first test of the cache, at the lock, behind the lock before the
-- second test, at the gateway, or returned.
pub data Caller : Type 0 where
  calling at_lock rechecking asking : Caller
  returned : (catalog : List Text) → Caller

-- The module's variables, and how often the gateway was asked.
pub record Shared : Type 0 where
  pub cache : ToolCache
  pub locked : Bool
  pub asked : ℕ

-- What one caller does between two awaits.
pub data Move : Shared → Caller → Shared → Caller → Type 0 where
  hit : (m : Shared) (c : List Text) → m.cache ≡ some c → Move m calling m (returned c)
  miss : (m : Shared) → m.cache ≡ none → Move m calling m at_lock
  acquire : (m : Shared) → m.locked ≡ false → Move m at_lock (record m { locked = true }) rechecking
  hit_under_lock :
      (m : Shared) (c : List Text)
      → m.cache ≡ some c
      → Move m rechecking (record m { locked = false }) (returned c)
  ask : (m : Shared) → m.cache ≡ none → Move m rechecking (record m { asked = suc m.asked }) asking
  reply :
      (m : Shared) (answer : Option (List Text))
      → Move m asking
          (record m { cache = some (discovered answer); locked = false })
          (returned (discovered answer))

pub record Process : Type 0 where
  pub shared : Shared
  pub callers : ℕ → Caller

abbrev pub update : (ℕ → Caller) → ℕ → Caller → ℕ → Caller
update f i c j = if i == j then c else f j

pub data Step : Process → Process → Type 0 where
  run :
      (s : Process) (i : ℕ) (m : Shared) (c : Caller)
      → Move s.shared (s.callers i) m c
      → Step s (record { shared = m; callers = update s.callers i c })

abbrev pub fresh : Process
fresh = record {
  shared = record { cache = none; locked = false; asked = 0 };
  callers = λ i. calling;
}

pub data Reach : Process → Type 0 where
  start : Reach fresh
  later : {s t : Process} → Reach s → Step s t → Reach t

abbrev is_rechecking : Caller → Bool
is_rechecking rechecking = true
is_rechecking _ = false

abbrev is_asking : Caller → Bool
is_asking asking = true
is_asking _ = false

abbrev holds : Caller → Bool
holds rechecking = true
holds asking = true
holds _ = false

record Inv (m : Shared) (f : ℕ → Caller) : Type 0 where
  once : m.asked ≤ 1
  idle : m.locked ≡ false → m.cache ≡ none → m.asked ≡ 0
  held : (i : ℕ) → holds (f i) ≡ true → m.locked ≡ true
  single : (i j : ℕ) → holds (f i) ≡ true → holds (f j) ≡ true → i ≡ j
  unasked : (i : ℕ) → is_rechecking (f i) ≡ true → m.cache ≡ none → m.asked ≡ 0
  uncached : (i : ℕ) → is_asking (f i) ≡ true → m.cache ≡ none
  same : (i : ℕ) (c : List Text) → f i ≡ returned c → m.cache ≡ some c

Inv-fresh : Inv fresh.shared fresh.callers
Inv-fresh = record {
  once = omega arith;
  idle = λ l c. refl;
  held = λ i h. cc;
  single = λ i j h k. cc;
  unasked = λ i h c. refl;
  uncached = λ i h. cc;
  same = λ i c h. cc;
}

module _ (f : ℕ → Caller) (i : ℕ) where
  hit-Inv :
      (m : Shared) (c : List Text)
      → f i ≡ calling
      → m.cache ≡ some c
      → Inv m f
      → Inv m (update f i (returned c))
  hit-Inv m c at e inv = record {
    once = inv.once;
    idle = inv.idle;
    held = λ j h. ground (arith, inv.held j);
    single = λ j k h g. ground (arith, inv.single j k);
    unasked = λ j h n. ground (arith, inv.unasked j);
    uncached = λ j h. ground (arith, inv.uncached j);
    same = λ j d h. ground (arith, inv.same j d);
  }

  miss-Inv : (m : Shared) → f i ≡ calling → Inv m f → Inv m (update f i at_lock)
  miss-Inv m at inv = record {
    once = inv.once;
    idle = inv.idle;
    held = λ j h. ground (arith, inv.held j);
    single = λ j k h g. ground (arith, inv.single j k);
    unasked = λ j h n. ground (arith, inv.unasked j);
    uncached = λ j h. ground (arith, inv.uncached j);
    same = λ j d h. ground (arith, inv.same j d);
  }

  acquire-Inv :
      (m : Shared)
      → f i ≡ at_lock
      → m.locked ≡ false
      → Inv m f
      → Inv (record m { locked = true }) (update f i rechecking)
  acquire-Inv m at free inv = record {
    once = inv.once;
    idle = λ l c. cc;
    held = λ j h. refl;
    single = λ j k h g. ground (arith, inv.held j, inv.held k);
    unasked = λ j h n. ground (arith, inv.idle);
    uncached = λ j h. ground (arith, inv.uncached j);
    same = λ j d h. ground (arith, inv.same j d);
  }

  hit_under_lock-Inv :
      (m : Shared) (c : List Text)
      → f i ≡ rechecking
      → m.cache ≡ some c
      → Inv m f
      → Inv (record m { locked = false }) (update f i (returned c))
  hit_under_lock-Inv m c at e inv = record {
    once = inv.once;
    idle = λ l n. ground arith;
    held = λ j h. ground (arith, inv.single i j);
    single = λ j k h g. ground (arith, inv.single j k);
    unasked = λ j h n. ground (arith, inv.unasked j);
    uncached = λ j h. ground (arith, inv.uncached j);
    same = λ j d h. ground (arith, inv.same j d);
  }

  ask-Inv :
      (m : Shared)
      → f i ≡ rechecking
      → m.cache ≡ none
      → Inv m f
      → Inv (record m { asked = suc m.asked }) (update f i asking)
  ask-Inv m at n inv = record {
    once = ground (arith, inv.unasked i);
    idle = λ l c. ground (arith, inv.held i);
    held = λ j h. ground (arith, inv.held i, inv.held j);
    single = λ j k h g. ground (arith, inv.single i j, inv.single i k, inv.single j k);
    unasked = λ j h c. ground (arith, inv.single i j);
    uncached = λ j h. n;
    same = λ j d h. ground (arith, inv.same j d);
  }

  reply-Inv :
      (m : Shared) (answer : Option (List Text))
      → f i ≡ asking
      → Inv m f
      → Inv
          (record m { cache = some (discovered answer); locked = false })
          (update f i (returned (discovered answer)))
  reply-Inv m answer at inv = record {
    once = inv.once;
    idle = λ l c. cc;
    held = λ j h. ground (arith, inv.single i j);
    single = λ j k h g. ground (arith, inv.single j k);
    unasked = λ j h n. cc;
    uncached = λ j h. ground (arith, inv.single i j);
    same = λ j d h. ground (arith, inv.same j d, inv.uncached i);
  }

Move-Inv :
    (f : ℕ → Caller) (i : ℕ) {m m' : Shared} {p c : Caller}
    → f i ≡ p
    → Move m p m' c
    → Inv m f
    → Inv m' (update f i c)
Move-Inv f i at (hit m c e) inv = hit-Inv f i m c at e inv
Move-Inv f i at (miss m e) inv = miss-Inv f i m at inv
Move-Inv f i at (acquire m e) inv = acquire-Inv f i m at e inv
Move-Inv f i at (hit_under_lock m c e) inv = hit_under_lock-Inv f i m c at e inv
Move-Inv f i at (ask m e) inv = ask-Inv f i m at e inv
Move-Inv f i at (reply m answer) inv = reply-Inv f i m answer at inv

Step-Inv : {s t : Process} → Step s t → Inv s.shared s.callers → Inv t.shared t.callers
Step-Inv (run s i m c move) inv = Move-Inv s.callers i refl move inv

Reach-Inv : {s : Process} → Reach s → Inv s.shared s.callers
Reach-Inv start = Inv-fresh
Reach-Inv (later r step) = Step-Inv step (Reach-Inv r)

-- However many tasks start at once and however their steps interleave, the gateway is asked for its
-- catalogue at most once, and any two callers that have returned hold the same catalogue.
pub Reach-IsShared :
    (s : Process)
    → Reach s
    → (s.shared.asked ≤ 1)
      × ((i j : ℕ) (c d : List Text)
          → s.callers i ≡ returned c
          → s.callers j ≡ returned d
          → some c ≡ some d)
Reach-IsShared s r =
    let inv = Reach-Inv r in (inv.once, λ i j c d p q. sym (inv.same i c p) ∙ inv.same j d q)
