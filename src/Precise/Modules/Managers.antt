-- ===== src/Precise/Modules/Managers.antt =====
-- file_manager.c and pattern_manager.c are such modules.
use memory_management_phase.Base.{ℕ, ◌^◌, ◌<◌, ◌≡◌, refl, ◌∙◌, true, arith, Option-cases, inl, inr}
use native.Mathlib.Nat.{add-zero}
use memory_management_phase.Machine.Host.{Host}
use memory_management_phase.Machine.State.{State}
use memory_management_phase.Machine.Returns.{returns}
use memory_management_phase.Touch.{write, toggled, offset}
use memory_management_phase.Touch.Frame.{is_mapped, Kept, region-byte, write-mapping, offset-eq}
use memory_management_phase.Pattern.Fix.Location.{IsFixed, IsFixed-mono}
use memory_management_phase.Precise.Files.Same.{file_mgr_get_file-eq}
use memory_management_phase.Precise.Pattern.{fix_exists}
use memory_management_phase.Precise.Pattern.First.{noted, first-Toggles}
use memory_management_phase.Precise.Modules.{IsModules, managers}

-- A write to the mapped first byte, behind the note of the address.
noted-Kept :
    (addr v : ℕ) (s : State)
    → addr < 2 ^ 64
    → is_mapped (s.mem addr) ≡ true
    → IsFixed s.mem s.fix_head
    → let t : State = record (noted addr s) { mem = write s.mem addr v } in
      Kept s t × IsFixed t.mem t.fix_head
unfolding noted
noted-Kept addr v s word here f =
    let m = write s.mem addr v in
    let keep = λ (p : ℕ). write-mapping s.mem addr v p here in
    let old : IsFixed m s.fix_head = IsFixed-mono s.mem m s.fix_head (λ p k. keep p ∙ k) f in
    elim (Option-cases (fix_exists addr s.fix_head)) [
      | inr (n, known) ↦ rw known (record { mapping = keep; rest = refl; calls = omega arith }, old)
      | inl new ↦
          let place = offset-eq addr 0 (omega arith) in
          let first : is_mapped (m (offset addr 0)) ≡ true =
            rw place (rw (add-zero addr) (keep addr ∙ here)) in
          rw new (record { mapping = keep; rest = refl; calls = omega arith }, (first, old))
    ]

-- With memory for every malloc, the pool of file_manager.c and the pattern of pattern_manager.c are
-- what alloc_manager.c relies on: the pool gives the first best fit, and the pattern on a mapped
-- allocation returns and leaves mapped what was mapped, the locations of its list included.
pub managers-IsModules :
    (host : Host) → ((n : ℕ) → host.malloc n ≡ true) → IsModules (managers host)
managers-IsModules host room = record {
  get_file-eq = file_mgr_get_file-eq;
  fix-Kept = λ addr len s h k r f.
      let (v, e) = region-byte s.mem addr len addr r (omega arith) (omega arith) in
      rw (first-Toggles host addr len v s h k (room s.calls) e)
        (returns (noted-Kept addr (toggled v) s (omega (arith, r.fits)) (rw e refl) f));
}
