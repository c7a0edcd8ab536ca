-- ===== src/Cluster/Ping.antt =====
-- The loop of pkg/cluster/slave.go that pings a node, and the status that it reports to the pool.
use cloudreve.Prelude.{
  ℕ, ◌+◌, ◌≤◌, ◌≡◌, refl, Bool, true, false, not, ◌&&◌, List, [], ◌∷◌, ◌++◌, leb, ltb,
  if◌then◌else◌, arith,
}

pub data Ping : Type 0 where
  ping_ok : Ping
  ping_error : Ping

-- The time until the next ping.
pub data Ticker : Type 0 where
  at_once : Ticker
  tick_duration : Ticker
  recover_duration : Ticker

pub record PingLoop : Type 0 where
  pub ping_ticker : Ticker
  pub retry : ℕ
  pub recover_mode : Bool
  pub is_first_loop : Bool
  pub active : Bool

-- The start of the loop, which leaves the status of the node as it is: active after the Init of a new
-- node, and what it was after the Init of one whose loop has run.
abbrev pub new_ping_loop : Bool → PingLoop
new_ping_loop active = record {
  ping_ticker = at_once;
  retry = 0;
  recover_mode = false;
  is_first_loop = true;
  active = active;
}

abbrev same_status : Bool → Bool → Bool
same_status true b = b
same_status false b = not b

-- changeStatus, with the status that the callback is given.
unfoldable pub change_status : Bool → PingLoop → PingLoop × List Bool
change_status is_active l =
    if same_status is_active l.active
    then (l, [])
    else (record l { active = is_active }, is_active ∷ [])

abbrev pub begin_round : PingLoop → PingLoop
begin_round l = record l {
  ping_ticker = elim l.ping_ticker [ at_once ↦ tick_duration | t ↦ t ];
  is_first_loop = false;
}

-- The start of the recovery after a change of status.
abbrev pub enter_recovery : PingLoop × List Bool → PingLoop × List Bool
enter_recovery (l, c) =
    if not l.recover_mode
    then (record l { ping_ticker = recover_duration; recover_mode = true }, c)
    else (l, c)

-- A round after an error, with `retry` counted up.
abbrev pub after_error : ℕ → PingLoop → PingLoop × List Bool
after_error threshold l =
    if leb threshold l.retry then enter_recovery (change_status false l) else (l, [])

abbrev pub leave_recovery : PingLoop → PingLoop
leave_recovery l =
    if l.recover_mode
    then record l { ping_ticker = tick_duration; recover_mode = false; is_first_loop = true }
    else l

abbrev pub after_ok : PingLoop × List Bool → PingLoop × List Bool
after_ok (l, c) = (record l { retry = 0 }, c)

-- A round of the loop, and the callbacks that it makes. The threshold is the setting
-- slave_node_retry.
unfoldable pub ping_round : ℕ → Ping → PingLoop → PingLoop × List Bool
unfolding change_status
ping_round threshold ping_error l =
    let m = begin_round l in after_error threshold (record m { retry = m.retry + 1 })
ping_round threshold ping_ok l = after_ok (change_status true (leave_recovery (begin_round l)))

unfoldable pub ping_rounds : ℕ → List Ping → PingLoop → PingLoop × List Bool
unfolding ping_round
ping_rounds threshold [] l = (l, [])
ping_rounds threshold (r ∷ rs) l =
    let first = ping_round threshold r l in
    let rest = ping_rounds threshold rs first.0 in (rest.0, first.1 ++ rest.1)

-- How many pings in a row have failed, after `n` before.
unfoldable pub failures : ℕ → List Ping → ℕ
failures n [] = n
failures n (ping_ok ∷ rs) = failures 0 rs
failures n (ping_error ∷ rs) = failures (n + 1) rs

-- The status that the pool has been told last.
unfoldable pub told : Bool → List Bool → Bool
told b [] = b
told b (c ∷ cs) = told c cs

-- Whether the node was active at the start or has answered since.
unfoldable pub answered : Bool → List Ping → Bool
answered b [] = b
answered b (ping_ok ∷ rs) = answered true rs
answered b (ping_error ∷ rs) = answered b rs

-- The loop after `n` failures in a row, where `b` is whether the node was active at the start or has
-- answered since.
pub record IsPingLoop (threshold n : ℕ) (b : Bool) (l : PingLoop) : Type 0 where
  pub counted : l.retry ≡ n
  pub status : l.active ≡ (b && ltb n threshold)
  pub recovering : l.recover_mode ≡ not (ltb n threshold)

ping_ok-IsPingLoop :
    (threshold n : ℕ) (b : Bool) (l : PingLoop)
    → 1 ≤ threshold
    → IsPingLoop threshold n b l
    → IsPingLoop threshold 0 true (ping_round threshold ping_ok l).0
      × (told l.active (ping_round threshold ping_ok l).1
          ≡ (ping_round threshold ping_ok l).0.active)
unfolding ping_round told change_status
ping_ok-IsPingLoop threshold n b l h ok = ground (arith, ok.counted, ok.status, ok.recovering)

ping_error-IsPingLoop :
    (threshold n : ℕ) (b : Bool) (l : PingLoop)
    → IsPingLoop threshold n b l
    → IsPingLoop threshold (n + 1) b (ping_round threshold ping_error l).0
      × (told l.active (ping_round threshold ping_error l).1
          ≡ (ping_round threshold ping_error l).0.active)
unfolding ping_round told change_status
ping_error-IsPingLoop threshold n b l ok = ground (arith, ok.counted, ok.status, ok.recovering)

told-append : (b : Bool) (xs ys : List Bool) → told b (xs ++ ys) ≡ told (told b xs) ys
unfolding told
told-append b [] ys = refl
told-append b (x ∷ xs) ys = told-append x xs ys

ping_rounds-from :
    (threshold n : ℕ) (b : Bool) (rs : List Ping) (l : PingLoop)
    → 1 ≤ threshold
    → IsPingLoop threshold n b l
    → let r = ping_rounds threshold rs l in
      IsPingLoop threshold (failures n rs) (answered b rs) r.0 × (told l.active r.1 ≡ r.0.active)
unfolding ping_rounds failures answered told
ping_rounds-from threshold n b [] l h ok = (ok, refl)
ping_rounds-from threshold n b (ping_ok ∷ rs) l h ok =
    let one = ping_ok-IsPingLoop threshold n b l h ok in
    let rest = ping_rounds-from threshold 0 true rs (ping_round threshold ping_ok l).0 h one.0 in
    (rest.0, rw (told-append, one.1) rest.1)
ping_rounds-from threshold n b (ping_error ∷ rs) l h ok =
    let one = ping_error-IsPingLoop threshold n b l ok in
    let rest =
      ping_rounds-from threshold (n + 1) b rs (ping_round threshold ping_error l).0 h one.0 in
    (rest.0, rw (told-append, one.1) rest.1)

-- With a threshold of 1 or more, from a start at which the node is active or not: after any pings the
-- node is active if it was at the start or has answered since, and fewer of the last pings than the
-- threshold have failed in a row; it is in recovery if as many have; and the status that the pool
-- has been told last, or that of the start if it has been told none, is that of the node.
pub ping_rounds-IsPingLoop :
    (threshold : ℕ) (active : Bool) (rs : List Ping)
    → 1 ≤ threshold
    → let r = ping_rounds threshold rs (new_ping_loop active) in
      (r.0.active ≡ (answered active rs && ltb (failures 0 rs) threshold))
      × (r.0.recover_mode ≡ not (ltb (failures 0 rs) threshold))
      × (told active r.1 ≡ r.0.active)
ping_rounds-IsPingLoop threshold active rs h =
    let start : IsPingLoop threshold 0 active (new_ping_loop active) = record {
      counted = refl;
      status = ground (arith, h);
      recovering = ground (arith, h);
    } in
    let r = ping_rounds-from threshold 0 active rs (new_ping_loop active) h start in
    (r.0.status, r.0.recovering, r.1)
