-- ===== src/Webdav/Lock/Contract.antt =====
-- What Create and Unlock promise, from a consistent lock system.
use cloudreve.Prelude.{
  ℕ, ◌+◌, ◌%◌, ◌^◌, ◌<◌, ◌≤◌, ◌≡◌, ◌≢◌, refl, sym, ◌∙◌, true, false, none, some, List, ◌∷◌, ◌⊎◌,
  inl, inr, Bytes, arith, format_uint, format_uint-injective, format_uint-ne-nil, Option-cases,
  Bool-cases, ◌>>=◌,
}
use cloudreve.Webdav.Path.{slash_clean}
use cloudreve.Webdav.Path.Walk.{slash_clean-IsRooted}
use cloudreve.Webdav.Lock.State.{
  LockDetails, MemLs, erase, next_token, ok, failed, locked, no_such_lock,
}
use cloudreve.Webdav.Lock.Methods.{create_lock, unlock, grant}
use cloudreve.Webdav.Lock.Counts.{SameLock}
use cloudreve.Webdav.Lock.Members.{In}
use cloudreve.Webdav.Lock.Consistent.{overlaps, IsConsistent, IsIssued}
use cloudreve.Webdav.Lock.Removal.Keeps.{remove_lem}
use cloudreve.Webdav.Lock.Collect.{Collected, collect_expired_nodes_lem}
use cloudreve.Webdav.Lock.Conflicts.{can_create_lem}
use cloudreve.Webdav.Lock.Creation.{create_lem, grant-Granted, gen-grant}
use cloudreve.Webdav.Lock.Creation.Keeps.{Granted-IsConsistent, same, new_free}

-- The details under which Create files a lock.
abbrev pub cleaned : LockDetails → LockDetails
cleaned given = record given { root = slash_clean given.root }

-- Create has made a lock: `n` is its node, beside the locks that have not expired.
pub record Created (m : MemLs) (locks : List ℕ) (given : LockDetails) (n : ℕ) (token : Bytes)
    (f : MemLs) : Type 0 where
  pub consistent : IsConsistent f (n ∷ locks)
  pub issued : IsIssued f (n ∷ locks)
  pub details : (f.nodes n).details ≡ cleaned given
  pub token_of : (f.nodes n).token ≡ token
  pub new : (k : ℕ) → In k locks → (m.nodes k).token ≢ token
  pub gen : f.gen ≡ m.gen + 1
  pub free : (f.nodes n).held ≡ false
  pub kept : (k : ℕ) → In k locks → (k ≢ n) × SameLock (f.nodes k) (m.nodes k)
  pub apart : (k : ℕ) → In k locks → overlaps (cleaned given) (m.nodes k).details ≡ false

pub IsIssued-collect :
    {now : ℕ} {m f : MemLs} {locks locks' : List ℕ}
    → Collected now m locks f locks'
    → IsIssued m locks
    → IsIssued f locks'
IsIssued-collect c h = record {
  gen = rw c.gen h.gen;
  issued = λ n i.
      let (j, s) = c.kept n i in let (g, e, le) = h.issued n j in (g, s.token ∙ e, rw c.gen le);
}

fresh_token :
    {m : MemLs} {locks : List ℕ}
    → IsIssued m locks
    → (g : ℕ) → m.gen < g
    → g < 2 ^ 64
    → (k : ℕ) → In k locks
    → (m.nodes k).token ≢ format_uint g
fresh_token h g lt le k i e =
    let (j, p, q) = h.issued k i in
    let eq : j ≡ g = format_uint-injective j g (omega arith) le (sym p ∙ e) in absurd (omega arith)

token_issued :
    (n g : ℕ) (token : Bytes) (m f : MemLs) (locks : List ℕ)
    → (f.nodes n).token ≡ token
    → token ≡ format_uint g
    → f.gen ≡ g
    → IsIssued m locks
    → m.gen ≤ g
    → ((k : ℕ) → In k locks → (f.nodes k).token ≡ (m.nodes k).token)
    → (k : ℕ) → In k (n ∷ locks)
    → (j : ℕ) × ((f.nodes k).token ≡ format_uint j) × (j ≤ f.gen)
token_issued n g token m f locks e p q h le same k (inl w) = (g, rw (← w) (e ∙ p), omega arith)
token_issued n g token m f locks e p q h le same k (inr i) =
    let (j, t, small) = h.issued k i in (j, same k i ∙ t, omega arith)

-- How a call of this method ends: the locks that have not expired, and its answers.
abbrev pub CreateEnds : ℕ → LockDetails → MemLs → List ℕ → Type 0
CreateEnds now given m locks =
    (m₁ : MemLs) × (locks₁ : List ℕ) × Collected now m locks m₁ locks₁
    × (((n : ℕ) × (token : Bytes) × (f : MemLs) × (create_lock now given m ≡ some (ok token, f))
          × Created m₁ locks₁ given n token f)
        ⊎ ((create_lock now given m ≡ some (failed locked, m₁))
            × ((k : ℕ) × In k locks₁ × (overlaps (cleaned given) (m₁.nodes k).details ≡ true))))

-- From a consistent system Create never panics. Once the expired locks are gone, it makes the lock
-- if no other lock overlaps with the cleaned name, under a token that no lock has; otherwise it
-- answers ErrLocked, and some lock does overlap. It keeps the system consistent. At most 2^64 - 1
-- tokens are issued before.
pub create_lock-Created :
    (now : ℕ) (given : LockDetails) (m : MemLs) (locks : List ℕ)
    → IsConsistent m locks
    → IsIssued m locks
    → m.gen + 1 < 2 ^ 64
    → CreateEnds now given m locks
unfolding create_lock next_token
create_lock-Created now given m locks h issued room =
    let (m₁, locks₁, e, c) = collect_expired_nodes_lem now m locks h in
    let d = cleaned given in
    let r = slash_clean-IsRooted given.root in
    let issued₁ = IsIssued-collect c issued in
    (
      m₁,
      locks₁,
      c,
      elim (can_create_lem c.consistent d r) [
        | inr (v, k) ↦ inr (rw (e, v) refl, k)
        | inl (v, apart) ↦
            let (n, m₂, w, cnt, g, named) = create_lem d.root m₁ _ c.consistent.counted r in
            let g' : ℕ = m₂.gen + 1 in
            let token = format_uint g' in
            let f = grant now d n token (record m₂ { gen = g' }) in
            let gen₂ : m₂.gen ≡ m.gen = g.gen ∙ c.gen in
            let wrap : (m₂.gen + 1) % 2 ^ 64 ≡ g' = omega arith in
            let new = fresh_token issued₁ g' (omega (arith, c.gen)) (omega (arith, c.gen)) in
            let gr = grant-Granted now d n token m₂ g' in
            let gen' : f.gen ≡ g' = gen-grant now d n token (record m₂ { gen = g' }) in
            let ok' =
              Granted-IsConsistent c.consistent r apart cnt g named (format_uint-ne-nil g') new
                gr in
            inl (
              n,
              token,
              f,
              rw (e, v, w, wrap) refl,
              record {
                consistent = ok';
                issued = record {
                  gen = rw gen' (omega (arith, c.gen, g.gen));
                  issued =
                      token_issued n g' token m₁ f locks₁ gr.token_of refl gen' issued₁
                        (omega (arith, g.gen))
                        λ k i.
                          (same c.consistent r apart cnt g named (format_uint-ne-nil g') new gr k
                            i).1.token;
                };
                details = gr.details;
                token_of = gr.token_of;
                new = new;
                gen = omega (arith, gen', g.gen);
                free = new_free c.consistent r apart cnt g named (format_uint-ne-nil g') new gr;
                kept = same c.consistent r apart cnt g named (format_uint-ne-nil g') new gr;
                apart = apart;
              },
            )
      ],
    )

-- Unlock has ended the lock `n`.
pub record Unlocked (m : MemLs) (locks : List ℕ) (token : Bytes) (n : ℕ) (f : MemLs) : Type 0 where
  pub consistent : IsConsistent f (erase n locks)
  pub gen : f.gen ≡ m.gen
  pub member : In n locks
  pub token_of : (m.nodes n).token ≡ token
  pub free : (m.nodes n).held ≡ false
  pub kept : (k : ℕ) → k ≢ n → SameLock (f.nodes k) (m.nodes k)

-- What a token that a client presents leads to.
abbrev pub TokenCases : MemLs → List ℕ → Bytes → Type 0
TokenCases m locks token =
    ((m.by_token token ≡ none) × ((k : ℕ) → In k locks → (m.nodes k).token ≢ token))
    ⊎ ((n : ℕ) × (m.by_token token ≡ some n)
        × In n locks
        × ((m.nodes n).token ≡ token)
        × (((m.nodes n).held ≡ true) ⊎ ((m.nodes n).held ≡ false)))

pub token_cases :
    (m : MemLs) (locks : List ℕ) (token : Bytes) → IsConsistent m locks → TokenCases m locks token
token_cases m locks token h = elim (Option-cases (m.by_token token)) [
  | inl e ↦ inl (e, λ k i p. ground (arith, (h.lock k i).by_token))
  | inr (n, e) ↦ let (i, p) = h.token token n e in inr (n, e, i, p, Bool-cases (m.nodes n).held)
]

-- How a call of this method ends: the locks that have not expired, and its answers.
abbrev pub UnlockEnds : ℕ → Bytes → MemLs → List ℕ → Type 0
UnlockEnds now token m locks =
    (m₁ : MemLs) × (locks₁ : List ℕ) × Collected now m locks m₁ locks₁
    × (((unlock now token m ≡ some (failed no_such_lock, m₁))
          × ((k : ℕ) → In k locks₁ → (m₁.nodes k).token ≢ token))
        ⊎ ((unlock now token m ≡ some (failed locked, m₁))
            × ((k : ℕ) × In k locks₁ × ((m₁.nodes k).token ≡ token) × ((m₁.nodes k).held ≡ true)))
        ⊎ ((n : ℕ) × (f : MemLs) × (unlock now token m ≡ some (ok tt, f))
            × Unlocked m₁ locks₁ token n f))

-- From a consistent system Unlock never panics. It answers ErrNoSuchLock exactly if no lock that has
-- not expired has the token, ErrLocked if a Confirm holds that lock, and else it ends that lock and
-- no other.
pub unlock-Unlocked :
    (now : ℕ) (token : Bytes) (m : MemLs) (locks : List ℕ)
    → IsConsistent m locks
    → UnlockEnds now token m locks
unfolding unlock
unlock-Unlocked now token m locks h =
    let (m₁, locks₁, e, c) = collect_expired_nodes_lem now m locks h in
    (
      m₁,
      locks₁,
      c,
      elim (token_cases m₁ locks₁ token c.consistent) [
        | inl (v, missing) ↦ inl (rw (e, ◌>>=◌, v) refl, missing)
        | inr (n, v, i, p, inl held) ↦ inr (inl (rw (e, ◌>>=◌, v, held) refl, (n, i, p, held)))
        | inr (n, v, i, p, inr free) ↦
            let (f, w, cf, r) = remove_lem m₁ locks₁ n c.consistent i free in
            inr (
              inr (
                n,
                f,
                rw (e, ◌>>=◌, v, free, w) refl,
                record {
                  consistent = cf;
                  gen = r.gen;
                  member = i;
                  token_of = p;
                  free = free;
                  kept = r.other;
                },
              ))
      ],
    )
