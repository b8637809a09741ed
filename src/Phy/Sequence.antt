-- ===== src/Phy/Sequence.antt =====
-- The sequence number of src/osdp_phy.c: -1 before the first packet, then 0, then 1, 2, 3 in turn.
use libosdp.Common.{
  ℕ, zero, suc, ◌+◌, ◌%◌, ◌≡◌, refl, ap, ◌∙◌, ℤ, pos, negsuc, ◌+ℤ◌, ◌-ℤ◌, ltb_ℤ, if◌then◌else◌, ◌<◌,
  arith,
}
use libosdp.Device.{Device}

-- One more, and past 3 back to 1.
abbrev pub seq_after : ℤ → ℤ
seq_after n = let next_seq = n +ℤ pos 1 in if ltb_ℤ (pos 3) next_seq then pos 1 else next_seq

-- One less, and below 1 back to 3.
abbrev pub seq_before : ℤ → ℤ
seq_before n = let back = n -ℤ pos 1 in if ltb_ℤ back (pos 1) then pos 3 else back

unfoldable pub get_next_seq_number : Device → ℤ
get_next_seq_number pd = seq_after pd.seq_number

unfoldable pub rollback_seq_number : Device → Device
rollback_seq_number pd = record pd { seq_number = seq_before pd.seq_number }

unfoldable pub reset_seq_number : Device → Device
reset_seq_number pd = record pd { seq_number = negsuc 0 }

unfoldable pub progress_sequence : Device → Device
unfolding get_next_seq_number
progress_sequence pd = record pd { seq_number = get_next_seq_number pd }

-- `n` packets, each of which moves the sequence number on.
unfoldable pub progress_times : ℕ → Device → Device
progress_times zero pd = pd
progress_times (suc n) pd = progress_sequence (progress_times n pd)

cycles_on : (k : ℕ) → k < 3 → seq_after (pos (k + 1)) ≡ pos ((k + 1) % 3 + 1)
cycles_on zero h = refl
cycles_on (suc zero) h = refl
cycles_on (suc (suc zero)) h = refl
cycles_on (suc (suc (suc k))) h = absurd (omega arith)

-- After a reset, the first packet has sequence number 0, and packet n + 2 has n mod 3 + 1: the
-- numbers go 0, 1, 2, 3, 1, 2, 3 and never come back to 0.
pub seq_cycle :
    (pd : Device) (n : ℕ)
    → ((progress_times 1 (reset_seq_number pd)).seq_number ≡ pos 0)
      × ((progress_times (suc (suc n)) (reset_seq_number pd)).seq_number ≡ pos (n % 3 + 1))
unfolding progress_times progress_sequence reset_seq_number
seq_cycle pd zero = (refl, refl)
seq_cycle pd (suc n) =
    (refl, ap seq_after (seq_cycle pd n).1 ∙ cycles_on (n % 3) (omega arith) ∙ ap pos (omega arith))

-- For a sequence number in the cycle, rolling back makes the number that is expected next the one
-- that was just received, and then progressing restores the device.
pub rollback-next :
    (pd : Device) (n : ℕ)
    → n < 3
    → pd.seq_number ≡ pos (suc n)
    → (get_next_seq_number (rollback_seq_number pd) ≡ pd.seq_number)
      × (progress_sequence (rollback_seq_number pd) ≡ pd)
unfolding progress_sequence get_next_seq_number rollback_seq_number
rollback-next pd zero h e = rw e (refl, refl)
rollback-next pd (suc zero) h e = rw e (refl, refl)
rollback-next pd (suc (suc zero)) h e = rw e (refl, refl)
rollback-next pd (suc (suc (suc n))) h e = absurd (omega arith)
