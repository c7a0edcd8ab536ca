-- ===== src/Webdav/LockTests.antt =====
-- The lock system at concrete calls.
use mathlib.Core.Option
use cloudreve.Prelude.{
  ℕ, ◌≡◌, refl, true, false, Option, none, some, List, [], ◌∷◌, inr, Bytes, codes, eqb, eqb→≡,
  eqb_refl, has_prefix, format_uint, pos, negsuc, arith, ◌==◌, if◌then◌else◌,
}
use cloudreve.Webdav.Path.{slash, slash_clean, before_last_slash, walk_to_root}
use cloudreve.Webdav.Path.Walk.{rooted, chain}
use cloudreve.Webdav.Lock.State.{
  LockDetails, Node, MemLs, Condition, Outcome, ok, failed, locked, blank, next_token, push, pull,
  earliest, remove,
}
use cloudreve.Webdav.Lock.Create.{can_create, create}
use cloudreve.Webdav.Lock.Methods.{
  collect_expired_nodes, lookup, hold, unhold, claim, confirm, release, grant, create_lock, refresh,
  unlock,
}
use cloudreve.Webdav.Lock.Consistent.{refs, IsConsistent, IsIssued}
use cloudreve.Webdav.Lock.Counts.{occurrences}
use cloudreve.Webdav.Lock.Collect.{Collected, collect_expired_nodes_lem}
use cloudreve.Webdav.Lock.Contract.{CreateEnds, create_lock-Created, UnlockEnds, unlock-Unlocked}
use cloudreve.Webdav.Lock.Claims.{RefreshEnds, refresh-Refreshed}
use cloudreve.Webdav.Lock.Confirms.{ConfirmEnds, confirm-Confirmed}
use cloudreve.Webdav.Lock.Holders.{IsSound}
use cloudreve.Webdav.Lock.Safety.{run_safe}
use cloudreve.Webdav.Lock.System.{Call, System, take_out, run, start}

program : Unit {0}
unfolding collect_expired_nodes confirm release create_lock refresh unlock run take_out slash_clean
    before_last_slash walk_to_root can_create create next_token remove earliest push pull lookup
    hold unhold claim eqb has_prefix format_uint grant
program = tt

abbrev deep : Bytes → LockDetails
deep name = record { root = name; duration = pos 10; owner_xml = []; zero_depth = false }

abbrev token : Bytes → Condition
token t = record { negated = false; token = t; etag = [] }

abbrev answer : Option (Outcome Bytes × MemLs) → Option (Outcome Bytes)
answer none = none
answer (some (r, m)) = some r

-- A lock below a locked directory is refused until the first lock has expired.
nested :
    Option.map
      (λ (s : System). answer (create_lock 5 (deep (codes "/a/b/")) s.ls))
      (run (Call.create 0 (deep (codes "/a")) ∷ []) (start 41))
    ≡ some (some (failed locked))
unfolding program
nested = refl

expired :
    Option.map
      (λ (s : System). answer (create_lock 10 (deep (codes "/a/b/")) s.ls))
      (run (Call.create 0 (deep (codes "/a")) ∷ []) (start 41))
    ≡ some (some (ok (codes "43")))
unfolding program
expired = refl

-- A confirmed lock cannot be unlocked until it is released.
abbrev life : List Call
life =
    Call.create 0 (deep slash)
    ∷ Call.confirm_locks 1 (codes "/x") [] (token (codes "42") ∷ [])
    ∷ Call.unlock_lock 2 (codes "42")
    ∷ Call.release_at 0
    ∷ Call.refresh_lock 3 (codes "42") (negsuc 0)
    ∷ Call.unlock_lock 99 (codes "42")
    ∷ []

life_ends :
    Option.map (λ (s : System). s.ls.by_token (codes "42")) (run life (start 41)) ≡ some none
unfolding program
life_ends = refl

-- One lock on the root that never expires.
abbrev root_node : Node
root_node = record {
  details = record { root = slash; duration = negsuc 0; owner_xml = []; zero_depth = true };
  token = codes "42";
  ref_count = pos 1;
  expiry = 0;
  queued = false;
  held = false;
}

abbrev one : MemLs
one = record {
  nodes = λ k. if k == 0 then root_node else blank;
  fresh = 1;
  by_name = λ x. if eqb x slash then some 0 else none;
  by_token = λ t. if eqb t (codes "42") then some 0 else none;
  gen = 42;
  by_expiry = [];
}

one-IsConsistent : IsConsistent one (0 ∷ [])
unfolding refs occurrences chain before_last_slash
one-IsConsistent = record {
  counted = record {
    absent = λ x e. ground arith;
    present = λ x n e. record {
      allocated = ground arith;
      root = ground (arith, eqb→≡ x slash);
      count = ground arith;
      positive = ground arith;
    };
  };
  distinct = (λ i. i, tt);
  lock = λ n i. record {
    has_token = λ q. ground arith;
    by_name = ground (arith, eqb_refl slash);
    by_token = ground (arith, eqb_refl (codes "42"));
    rooted = ground (arith, rooted []);
    waits = ground arith;
  };
  token = λ t n e. (ground arith, ground (arith, eqb→≡ t (codes "42")));
  unlocked = λ x n e. inr (ground arith);
  idle = λ x n e e'. ground arith;
  queue = tt;
  in_queue = λ n i. absurd i;
  queued = λ n i e. absurd (ground arith);
  exclusive = λ a b i j ne. absurd (ground arith);
}

one-IsIssued : IsIssued one (0 ∷ [])
unfolding format_uint
one-IsIssued = record { gen = omega arith; issued = λ n i. (42, ground arith, omega arith) }

collect_expired_nodes_lem_example :
    (f : MemLs) × (locks : List ℕ) × (collect_expired_nodes 7 one ≡ some f)
    × Collected 7 one (0 ∷ []) f locks
collect_expired_nodes_lem_example = collect_expired_nodes_lem 7 one (0 ∷ []) one-IsConsistent

create_lock-Created_example : CreateEnds 7 (deep (codes "/x/../y")) one (0 ∷ [])
create_lock-Created_example =
    create_lock-Created 7 (deep (codes "/x/../y")) one (0 ∷ []) one-IsConsistent one-IsIssued
      (omega arith)

unlock-Unlocked_example : UnlockEnds 7 (codes "42") one (0 ∷ [])
unlock-Unlocked_example = unlock-Unlocked 7 (codes "42") one (0 ∷ []) one-IsConsistent

refresh-Refreshed_example : RefreshEnds 7 (codes "42") (pos 60) one (0 ∷ [])
refresh-Refreshed_example = refresh-Refreshed 7 (codes "42") (pos 60) one (0 ∷ []) one-IsConsistent

confirm-Confirmed_example : ConfirmEnds 7 slash (codes "/x") (token (codes "42") ∷ []) one (0 ∷ [])
confirm-Confirmed_example =
    confirm-Confirmed 7 slash (codes "/x") (token (codes "42") ∷ []) one (0 ∷ []) one-IsConsistent

run_safe_example :
    (s : System) × (locks : List ℕ) × (run life (start 41) ≡ some s) × IsSound s locks
run_safe_example = run_safe 41 life (omega arith)
