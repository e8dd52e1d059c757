-- ===== src/Governor/FenceWatch.antt =====
-- governor/FenceWatch.cpp: the fences of work in flight, each a descriptor that the governor owns until
-- it closes it. A call that closes descriptors returns them.
pub mod Ownership
use android_hardware_nvidia.Prelude.{
  Bool, List, [], false, get_elem?, if◌then◌else◌, is_nil, leb, ltb, ltb_ℤ, none, not, pos, some,
  suc, ℕ, ℤ, ◌++◌, ◌+◌, ◌==◌, ◌||◌, ◌∷◌, true,
}

pub record Watched : Type 0 where
  pub fd : ℤ
  pub seq : ℕ
  pub since_ns : ℕ

-- A slot of the poll set as poll() leaves it: whether any of POLLIN, POLLERR, POLLHUP and POLLNVAL is
-- set in `revents`.
pub record PollSlot : Type 0 where
  pub fd : ℤ
  pub is_due : Bool

pub record FenceWatch : Type 0 where
  pub watched : List Watched
  pub latest_seq : ℕ

unfoldable pub no_fences : FenceWatch
no_fences = record { watched = []; latest_seq = 0 }

unfoldable pub add : FenceWatch → ℤ → ℕ → ℕ → FenceWatch
add w fd seq now_ns =
    let latest = if ltb w.latest_seq seq then seq else w.latest_seq in
    if ltb_ℤ fd (pos 0) then record w { latest_seq = latest } else record {
      watched = w.watched ++ record { fd = fd; seq = seq; since_ns = now_ns } ∷ [];
      latest_seq = latest;
    }

unfoldable pub slots_of : List Watched → List PollSlot
slots_of [] = []
slots_of (w ∷ ws) = record { fd = w.fd; is_due = false } ∷ slots_of ws

unfoldable pub append_poll_set : FenceWatch → List PollSlot → List PollSlot
unfolding slots_of
append_poll_set w fds = fds ++ slots_of w.watched

-- The loop of `NextGiveUpNs`, with the earliest moment so far.
unfoldable pub earliest_from : ℕ → ℕ → List Watched → ℕ
earliest_from patience_ns earliest [] = earliest
earliest_from patience_ns earliest (w ∷ ws) =
    let at = w.since_ns + patience_ns in
    earliest_from patience_ns (if earliest == 0 || ltb at earliest then at else earliest) ws

unfoldable pub next_give_up_ns : FenceWatch → ℕ → ℕ
unfolding earliest_from
next_give_up_ns w patience_ns = earliest_from patience_ns 0 w.watched

-- A slot past the end of the poll set says nothing.
unfoldable pub is_signaled : List PollSlot → ℕ → Bool
is_signaled fds slot = elim (get_elem? fds slot) [ none ↦ false | some p ↦ p.is_due ]

-- The loop of `Judge` from slot `slot` on: what is kept, and what is closed. The difference of the times
-- is signed in the source; it is compared here as a sum.
unfoldable pub judge_from : List PollSlot → ℕ → ℕ → ℕ → List Watched → List Watched × List ℤ
judge_from fds slot now_ns patience_ns [] = ([], [])
judge_from fds slot now_ns patience_ns (w ∷ ws) =
    let (kept, closed) = judge_from fds (suc slot) now_ns patience_ns ws in
    if is_signaled fds slot || leb (w.since_ns + patience_ns) now_ns
    then (kept, w.fd ∷ closed)
    else (w ∷ kept, closed)

pub record Judged : Type 0 where
  pub watch : FenceWatch
  pub any_done : Bool
  pub closed : List ℤ

abbrev pub any_closed : List ℤ → Bool
any_closed closed = not (is_nil closed)

-- `any_done` is set where a descriptor is closed.
unfoldable pub judge : FenceWatch → List PollSlot → ℕ → ℕ → ℕ → Judged
unfolding judge_from is_signaled
judge w fds first_slot now_ns patience_ns =
    let (kept, closed) = judge_from fds first_slot now_ns patience_ns w.watched in
    record { watch = record w { watched = kept }; any_done = any_closed closed; closed = closed }

abbrev pub fds_of : List Watched → List ℤ
fds_of [] = []
fds_of (w ∷ ws) = w.fd ∷ fds_of ws

unfoldable pub drop_all : FenceWatch → FenceWatch × List ℤ
drop_all w = (record w { watched = [] }, fds_of w.watched)

abbrev pub is_watching_none : FenceWatch → Bool
is_watching_none w = is_nil w.watched

-- The loop of `FloorLane::Follow` over the reports.
unfoldable pub add_all : FenceWatch → List Watched → ℕ → FenceWatch
unfolding add
add_all w [] now = w
add_all w (s ∷ ss) now = add_all (add w s.fd s.seq now) ss now
