-- ===== src/Kernel/Envelopes.antt =====
-- `k_request_msg_env` and `k_release_msg_env`: the pool of envelopes and its reserve.
use rtx.Base.{
  ◌≡◌, ◌≢◌, refl, ap, true, false, List, [], ◌∷◌, ◌++◌, arith, if◌then◌else◌, Bool-cases, inl, inr,
}
use rtx.Base.Int.{incr}
use rtx.Rtx.{code_success, error_null_arg}
use rtx.Links.{Ptr, null}
use rtx.Links.Contents.{Contents, put, Holds}
use rtx.Links.Moves.{IsFree}
use rtx.MsgEnvQueue
use rtx.MsgEnvQueue.Refines.{
  is_empty_of_empty, is_empty_of_cons, enqueue_env-Holds, dequeue_env-Holds,
}
use rtx.Kernel.{Kernel, current, Reply, now}
use rtx.Kernel.Primitives.{
  no_envelope, make_ready, take_envelope, k_request_msg_env, k_is_msg_env_sys_env, wake_requester,
  k_release_msg_env,
}

-- A call that takes envelope `e` from the front of the queue at `q` returns it, leaves `es` in that
-- queue, and counts one envelope more for the current process.
abbrev pub Takes : Kernel → Contents → (q e : Ptr) (es : List Ptr) → Reply Ptr × Kernel → Type 0
Takes s m q e es (reply, s') =
    (reply ≡ now e)
    × Holds s'.mail (put m q es)
    × ((current s').env_owned ≡ incr (current s).env_owned)

module _ (s : Kernel) (m : Contents) (h : Holds s.mail m) where
  take-Takes :
      (q e : Ptr) (es : List Ptr) → q ≢ null → m q ≡ e ∷ es → Takes s m q e es (take_envelope q s)
  unfolding take_envelope
  take-Takes q e es nq full =
      let (first, holds) = dequeue_env-Holds h q e es nq full in (ap now first, holds, ground arith)

  -- `k_request_msg_env`, while the common pool is not empty, returns its oldest envelope at once,
  -- takes it out of the pool and counts it for the caller, whoever the caller is.
  pub request_pool :
      (e : Ptr) (es : List Ptr)
      → s.free_env_q ≢ null
      → m s.free_env_q ≡ e ∷ es
      → Takes s m s.free_env_q e es (k_request_msg_env s)
  unfolding k_request_msg_env
  request_pool e es nq full =
      rw (is_empty_of_cons h s.free_env_q e es nq full) (take-Takes s.free_env_q e es nq full)

  module _ (empty : m s.free_env_q ≡ []) (interrupt : (current s).is_i_process ≡ true) where
    -- `k_request_msg_env`, called by an i-process while the common pool is empty and the reserve
    -- is not, returns the oldest envelope of the reserve at once, takes it out of the reserve and
    -- counts it for the caller.
    pub request_reserve :
        (e : Ptr) (es : List Ptr)
        → s.sys_free_env_q ≢ null
        → m s.sys_free_env_q ≡ e ∷ es
        → Takes s m s.sys_free_env_q e es (k_request_msg_env s)
    unfolding k_request_msg_env
    request_reserve e es nq full =
        rw
          (
            is_empty_of_empty h s.free_env_q empty,
            interrupt,
            is_empty_of_cons h s.sys_free_env_q e es nq full,
          )
          (take-Takes s.sys_free_env_q e es nq full)

    -- With the reserve empty too, it gets NULL, and nothing changes.
    pub request_nothing : m s.sys_free_env_q ≡ [] → k_request_msg_env s ≡ (now null, s)
    unfolding k_request_msg_env
    request_nothing none_left = rw (
      is_empty_of_empty h s.free_env_q empty,
      interrupt,
      is_empty_of_empty h s.sys_free_env_q none_left,
    )

-- Waking a process that waits for an envelope touches no queue of envelopes.
wake_requester-mail : (s : Kernel) → (wake_requester s).mail ≡ s.mail
unfolding wake_requester make_ready
wake_requester-mail s = ground arith

-- The queue that an envelope goes back to.
abbrev pub home : Ptr → Kernel → Ptr
home e s = if k_is_msg_env_sys_env e s then s.sys_free_env_q else s.free_env_q

-- `k_release_msg_env` of an envelope that has a message and stands in no queue succeeds and puts
-- it at the end of the pool it comes from, the reserve for the two envelopes of the system and
-- the common pool for any other; no other queue of envelopes changes.
pub release-home :
    (e : Ptr) (s : Kernel) (m : Contents)
    → no_envelope e s ≡ false
    → Holds s.mail m
    → e ≢ null
    → s.free_env_q ≢ null
    → s.sys_free_env_q ≢ null
    → IsFree e m
    → ((k_release_msg_env e s).0 ≡ code_success)
      × Holds (k_release_msg_env e s).1.mail (put m (home e s) (m (home e s) ++ e ∷ []))
unfolding k_release_msg_env
release-home e s m there h ne free sys new = elim (Bool-cases (k_is_msg_env_sys_env e s)) [
  | inl reserve ↦
      rw (there, reserve) (refl, enqueue_env-Holds h s.sys_free_env_q e sys ne new _ refl)
  | inr common ↦
      rw
        (
          there,
          common,
          wake_requester-mail (record s { mail = (MsgEnvQueue.enqueue s.free_env_q e s.mail).1 }),
        )
        (refl, enqueue_env-Holds h s.free_env_q e free ne new _ refl)
]

pub release_null :
    (e : Ptr) (s : Kernel) → no_envelope e s ≡ true → k_release_msg_env e s ≡ (error_null_arg, s)
unfolding k_release_msg_env
release_null e s missing = rw missing
