-- ===== src/Nuke.antt =====
-- `nuke` and `stop_activity` of patch/kernel/dummy_hcd.c: all requests of an endpoint, or of all
-- endpoints, are given back with -ESHUTDOWN.
pub mod Empty
pub mod Given
pub mod Keep
use fuzzusb.Base.{ℕ, zero, suc, ◌+◌, Bool, true, false, List, [], ◌∷◌, update, length}
use fuzzusb.Usb.{Ret, err, eshutdown}
use fuzzusb.Dummy.{Dummy, Env, Event, dummy_endpoints}
use fuzzusb.Dummy.Access.{set_ep, set_req, giveback, log}

-- The first request of the queue, `r`, with `rs` behind it, is unlinked and fails.
unfoldable pub fail_first : ℕ → ℕ → List ℕ → Dummy → Dummy
fail_first i r rs d =
    set_req r (record (d.reqs r) { linked = false; status = err eshutdown })
      (set_ep i (record (d.ep i) { queue = rs }) d)

unfoldable pub nuke_one : Env → ℕ → ℕ → List ℕ → Dummy → Dummy
unfolding giveback fail_first
nuke_one env i r rs d = giveback env i r (fail_first i r rs d)

-- `while (!list_empty(&ep->queue))`, with fuel; where that runs out and the loop goes on, the trace says so.
unfoldable pub nuke_loop : Env → ℕ → ℕ → Dummy → Dummy
nuke_loop env zero i d = elim (d.ep i).queue [ [] ↦ d | r ∷ rs ↦ log (Event.nuke_cut i) d ]
nuke_loop env (suc fuel) i d = elim (d.ep i).queue [
  | [] ↦ d
  | r ∷ rs ↦ nuke_loop env fuel i (nuke_one env i r rs d)
]

-- A round takes one request off, so the queue's length is fuel enough unless callbacks queue requests;
-- every run that ends is followed to its end for a sufficient `env.nuke_rounds`.
unfoldable pub nuke : Env → ℕ → Dummy → Dummy
unfolding nuke_loop
nuke env i d = nuke_loop env (length (d.ep i).queue + env.nuke_rounds) i d

-- `for (i = 0; i < DUMMY_ENDPOINTS; ++i)`: `n` rounds are left, `i` is the next endpoint
unfoldable pub nuke_all : Env → ℕ → ℕ → Dummy → Dummy
nuke_all env zero i d = d
nuke_all env (suc n) i d = nuke_all env n (i + 1) (nuke env i d)

unfoldable pub stop_activity : Env → Dummy → Dummy
unfolding nuke_all
stop_activity env d = nuke_all env dummy_endpoints 0 (record d { address = 0 })
