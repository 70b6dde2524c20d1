-- ===== src/Agent/Journal/Frame.antt =====
-- What each method leaves alone: the rows of the other keys.
use project_vpn.Common.{
  ℕ, ◌+◌, ◌≡◌, refl, false, Option, none, some, arith, Text, text_eq, Instant, seconds,
}
use project_vpn.Common.Json.{Payload}
use project_vpn.Common.Table.{Table, find, store, find-store, find-remove}
use project_vpn.Agent.Journal.{
  Row, Request, claim, claim_row, complete, mark_retryable, update_owned, retire, retire_row,
  new_row, reclaimed_row, completed_row, retryable_row,
}

module _ (k j : Text) (other : text_eq j k ≡ false) where
  store_frame : (v : Row) (t : Table Row) → find k (store j v t) ≡ find k t
  store_frame v t = ground (arith, find-store j k v t, other)

  claim_row_frame :
      (o : Option Row) (r : Request) (now lease : Instant) (token : ℕ) (t : Table Row)
      → find k (claim_row o j r now lease token t).0 ≡ find k t
  unfolding claim_row
  claim_row_frame none r now lease token t = store_frame (new_row r token lease now) t
  claim_row_frame (some row) r now lease token t =
      ground (arith, store_frame (reclaimed_row row token lease now) t)

  pub claim_frame :
      (n : ℕ) (r : Request) (now : Instant) (token : ℕ) (t : Table Row)
      → find k (claim n j r now token t).0 ≡ find k t
  unfolding claim
  claim_frame n r now token t = claim_row_frame (find j t) r now (now + seconds n) token t

  update_owned_frame :
      (o : Option Row) (token : ℕ) (change : Row → Row) (t : Table Row)
      → find k (update_owned o j token change t).0 ≡ find k t
  unfolding update_owned
  update_owned_frame none token change t = refl
  update_owned_frame (some row) token change t = ground (arith, store_frame (change row) t)

  pub complete_frame :
      (token : ℕ) (p : Payload) (now : Instant) (t : Table Row)
      → find k (complete j token p now t).0 ≡ find k t
  unfolding complete
  complete_frame token p now t = update_owned_frame (find j t) token (completed_row p now) t

  pub mark_retryable_frame :
      (token : ℕ) (e : Text) (now : Instant) (t : Table Row)
      → find k (mark_retryable j token e now t).0 ≡ find k t
  unfolding mark_retryable
  mark_retryable_frame token e now t = update_owned_frame (find j t) token (retryable_row e now) t

  retire_row_frame : (o : Option Row) (t : Table Row) → find k (retire_row o j t).0 ≡ find k t
  unfolding retire_row
  retire_row_frame none t = refl
  retire_row_frame (some row) t = ground (arith, find-remove j k t, other)

  pub retire_frame : (t : Table Row) → find k (retire j t).0 ≡ find k t
  unfolding retire
  retire_frame t = retire_row_frame (find j t) t
