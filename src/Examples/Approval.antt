-- ===== src/Examples/Approval.antt =====
-- Approvals: src/approval_store.c, src/approval_replay.c, src/confirmation.c and src/api.c.
use asterism_asngn.Common.{
  subst, bytes_eq, bytes_eq_refl, ℕ, ◌≡◌, refl, Bool, true, false, none, some, List, [], ◌∷◌, Bytes,
}
use asterism_asngn.Common.Writes.{written}
use asterism_asngn.Common.Errors.{ok, busy}
use asterism_asngn.Sha256.{sha256, sha256_hex}
use asterism_asngn.Uuid.{uuid_v4}
use asterism_asngn.Approval.{
  Approval, ApprovalStatus, pending, approved, consumed, interrupted, coding_sandboxed,
}
use asterism_asngn.Approval.Store.{Session, replay, load, save, transition}
use asterism_asngn.Approval.Binding.{Tool, Turn, grant_key, prepare}
use asterism_asngn.Approval.Confirmation.{
  empty_id, Note, Waiting, Lane, prompt, ask, confirm_lane, resume,
}
use asterism_asngn.Approval.Saved.{Replays}
use asterism_asngn.Approval.Journal.{Closed, load-Closed}
use asterism_asngn.Approval.Reviewed.{IsReviewed, replay-IsReviewed}
use asterism_asngn.Approval.Sound.{IsSound, idle, empty_session}
use asterism_asngn.Approval.Reached.{
  Reach, start, step, asked, answered, IsCleared, IsUsed, Reach-IsSound, resume-IsReviewed,
}
use asterism_asngn.Approval.Answered.{confirm_lane-confirm_lane}

abbrev edit : ℕ → ApprovalStatus → Approval
edit n status = record {
  sequence = n;
  id = b'i' ∷ [];
  turn_id = b't' ∷ [];
  tool_ref = b'e' ∷ [];
  command = b'w' ∷ [];
  arguments_sha256 = b'a' ∷ [];
  package_sha256 = b'p' ∷ [];
  snapshot = b's' ∷ [];
  workspace = b'/' ∷ [];
  profile = coding_sandboxed;
  status = status;
  session_wide = false;
  arguments = [];
}

abbrev used : List Approval
used = edit 3 consumed ∷ edit 2 approved ∷ edit 1 pending ∷ []

replay-IsReviewed_example : IsReviewed used (edit 3 consumed)
unfolding replay asterism_asngn.Approval.follows
replay-IsReviewed_example = replay-IsReviewed used {a = edit 3 consumed} refl refl

abbrev waiting_on_disk : List Approval
waiting_on_disk = edit 1 pending ∷ []

abbrev repaired : Session
repaired = record {
  current = some (edit 2 interrupted);
  journal = edit 2 interrupted ∷ waiting_on_disk;
  recovery_required = false;
  allow = [];
}

load-Closed_example : Replays repaired × Closed repaired
unfolding load asterism_asngn.Approval.follows asterism_asngn.Text.Utf8.utf8_valid
load-Closed_example = load-Closed (λ a. some []) waiting_on_disk written {s = repaired} refl

abbrev tool : Tool
tool = record { ref = b'e' ∷ []; command = b'w' ∷ []; content_sha256 = b'p' ∷ [] }

abbrev turn : Turn
turn = record {
  span_root = b't' ∷ [];
  security_profile = coding_sandboxed;
  canonical_root = b'/' ∷ [];
}

abbrev writes : Note
writes = record { read_only = false; destructive = true }

abbrev random_bytes : Bytes
random_bytes = 1 ∷ 2 ∷ 3 ∷ 4 ∷ 5 ∷ 6 ∷ 7 ∷ 8 ∷ 9 ∷ 10 ∷ 11 ∷ 12 ∷ 13 ∷ 14 ∷ 15 ∷ 16 ∷ []

abbrev after_ask : Lane
after_ask =
    (ask (λ a. some []) (idle empty_session) prompt turn tool writes (some []) random_bytes
      (ok none) (ok (b's' ∷ [])) written).0

Reach-IsSound_example : IsSound after_ask
Reach-IsSound_example =
    Reach-IsSound (λ a. some [])
      (step start (
        asked (idle empty_session) prompt turn tool writes (some []) random_bytes (ok none)
          (ok (b's' ∷ [])) written refl))

abbrev asked_edit : ℕ → ApprovalStatus → Approval
asked_edit n status = record {
  sequence = n;
  id = uuid_v4 random_bytes;
  turn_id = b't' ∷ [];
  tool_ref = b'e' ∷ [];
  command = b'w' ∷ [];
  arguments_sha256 = sha256_hex (sha256 []) 32;
  package_sha256 = b'p' ∷ [];
  snapshot = b's' ∷ [];
  workspace = b'/' ∷ [];
  profile = coding_sandboxed;
  status = status;
  session_wide = false;
  arguments = [];
}

abbrev call : Waiting
call = record { id = uuid_v4 random_bytes; snapshot = b's' ∷ []; grant = grant_key turn tool }

abbrev lane_of : Approval → List Approval → Bool → Lane
lane_of a older says = record {
  session = record { current = some a; journal = a ∷ older; recovery_required = false; allow = [] };
  slot = record {
    id = uuid_v4 random_bytes;
    decided = says;
    allow = says;
    session_wide = false;
    bound = true;
  };
  waiting = some call;
}

abbrev lane_asked : Lane
lane_asked = lane_of (asked_edit 1 pending) [] false

abbrev lane_cleared : Lane
lane_cleared = lane_of (asked_edit 2 approved) (asked_edit 1 pending ∷ []) true

after_ask_lem : after_ask ≡ lane_asked
unfolding ask prepare save asterism_asngn.Approval.follows asterism_asngn.Text.Utf8.utf8_valid
after_ask_lem = refl

named :
    (empty_id (uuid_v4 random_bytes) ≡ false)
    × (bytes_eq (uuid_v4 random_bytes) (uuid_v4 random_bytes) ≡ true)
unfolding uuid_v4
named = (refl, bytes_eq_refl (uuid_v4 random_bytes))

answered_lem :
    (confirm_lane (λ a. some []) lane_asked (uuid_v4 random_bytes) true false written).0
    ≡ lane_cleared
unfolding confirm_lane transition asterism_asngn.Approval.follows
    asterism_asngn.Text.Utf8.utf8_valid
answered_lem = rw (named.0, named.1, bytes_eq_refl (sha256_hex (sha256 []) 32)) refl

Reach-cleared : Reach (λ a. some []) lane_cleared
Reach-cleared = subst (Reach (λ a. some [])) answered_lem (
    step
      (subst (Reach (λ a. some [])) after_ask_lem (
        step start (
          asked (idle empty_session) prompt turn tool writes (some []) random_bytes (ok none)
            (ok (b's' ∷ [])) written refl)))
      (answered lane_asked (uuid_v4 random_bytes) true false written))

goes_ahead :
    (resume
      (λ a. some [])
      lane_cleared
      call
      none
      false
      false
      (ok (b's' ∷ []))
      true
      written).1.allowed
    ≡ true
unfolding resume transition asterism_asngn.Approval.follows asterism_asngn.Text.Utf8.utf8_valid
goes_ahead = rw (named.1, bytes_eq_refl (sha256_hex (sha256 []) 32)) refl

abbrev after_resume : Session
after_resume =
    (resume (λ a. some []) lane_cleared call none false false (ok (b's' ∷ [])) true
      written).0.session

resume-IsReviewed_example :
    IsCleared (λ a. some []) lane_cleared.slot call false false (ok (b's' ∷ [])) true
    × (a : Approval) × IsUsed (λ a. some []) call after_resume a
    × IsReviewed after_resume.journal a
resume-IsReviewed_example =
    resume-IsReviewed (λ a. some []) lane_cleared call none false false (ok (b's' ∷ [])) true
      written Reach-cleared refl goes_ahead

abbrev simple_lane : Lane
simple_lane = record {
  session = record {
    current = some (edit 1 pending);
    journal = waiting_on_disk;
    recovery_required = false;
    allow = [];
  };
  slot = record {
    id = b'i' ∷ [];
    decided = false;
    allow = false;
    session_wide = false;
    bound = true;
  };
  waiting = none;
}

confirm_lane-confirm_lane_example :
    confirm_lane
      (λ a. some [])
      (confirm_lane (λ a. some []) simple_lane (b'i' ∷ []) true false written).0
      (b'i' ∷ [])
      false
      false
      written
    ≡ ((confirm_lane (λ a. some []) simple_lane (b'i' ∷ []) true false written).0, some busy)
unfolding confirm_lane transition asterism_asngn.Approval.follows
    asterism_asngn.Text.Utf8.utf8_valid
confirm_lane-confirm_lane_example =
    confirm_lane-confirm_lane (λ a. some []) (b'i' ∷ []) simple_lane true false false false written
      written refl
