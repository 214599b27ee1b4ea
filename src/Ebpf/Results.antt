-- ===== src/Ebpf/Results.antt =====
-- Lemmas on `parse_repr_c` and on `Result`, for every event type at once.
use aether_terminal.Prelude.{
  ℕ, ◌≤◌, ◌≡◌, refl, ap, Bool, true, false, subst, if◌then◌else◌, List, length, ltb, some, arith,
}
use aether_terminal.Ebpf.Bytes.{size_of}
use aether_terminal.Ebpf.Events.{
  RawKernelEvent, Result, ok, err, parse_repr_c, map_result, ReprC, fork_repr, exit_repr,
  tcp_connect_repr, tcp_close_repr, syscall_repr, EbpfError, parse_error, expected_at_least,
}
use aether_terminal.Ebpf.Encode.{failure, failure_of}

ok_or : RawKernelEvent → Result RawKernelEvent → RawKernelEvent
ok_or d (ok e) = e
ok_or d (err x) = d

ok-injective : {x y : RawKernelEvent} → ok x ≡ ok y → x ≡ y
unfolding ok_or
ok-injective {x = x} q = ap (ok_or x) q

pub err-ok : {x : EbpfError} {e : RawKernelEvent} → err x ≡ ok e → ⊥
err-ok q = cc q

module _ {T : Type 0} ⦃r : ReprC T⦄ where
  pub parse_repr_c_long :
      (t : ℕ) (bytes : List ℕ)
      → size_of r.widths ≤ length bytes
      → parse_repr_c t bytes ≡ ok (r.read bytes)
  unfolding parse_repr_c
  parse_repr_c_long t bytes h = ground arith

  -- What holds of the event that is read from a buffer of the struct's size or more holds of the
  -- result.
  pub map_result-parse_repr_c :
      (t : ℕ) (bytes : List ℕ) (f : T → RawKernelEvent) (P : RawKernelEvent → Type 0)
      → (size_of r.widths ≤ length bytes → P (f (r.read bytes)))
      → (e : RawKernelEvent) → map_result (parse_repr_c t bytes) f ≡ ok e
      → P e
  unfolding parse_repr_c map_result
  map_result-parse_repr_c t bytes f P p e q = go (ltb (length bytes) (size_of r.widths)) refl q
    where
      go :
          (b : Bool)
          → ltb (length bytes) (size_of r.widths) ≡ b
          → map_result
              (if b
                then err (parse_error t (length bytes) (expected_at_least (size_of r.widths)))
                else ok (r.read bytes))
              f
            ≡ ok e
          → P e
      go true s q = absurd (err-ok q)
      go false s q = subst P (ok-injective q) (p (ground (arith, s)))

  pub failure-parse_repr_c :
      {B : Type 0} (t : ℕ) (bytes : List ℕ) (f : T → B)
      → failure (map_result (parse_repr_c t bytes) f) ≡ failure_of t bytes (some (size_of r.widths))
  unfolding parse_repr_c map_result failure failure_of
  failure-parse_repr_c t bytes f = ground arith
