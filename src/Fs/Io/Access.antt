-- ===== src/Fs/Io/Access.antt =====
-- The check of access in fs.c.
use sistemas_operativos.Base.{ℕ, ◌≡◌, ◌↔◌, refl, Bool, true, false, not, ◌&&◌, arith, if◌then◌else◌}
use sistemas_operativos.Fs.State.{Fs, ok, err, failure, has_bit}
use sistemas_operativos.Fs.Io.{refused, fiuba_access}

-- A bit of the mask that is asked for is granted to the owner and to the group.
abbrev pub Grants : (mode mask bit user group : ℕ) → Type 0
Grants mode mask bit user group =
    has_bit mask bit ≡ true → (has_bit mode user ≡ true) × (has_bit mode group ≡ true)

gate-to : (a u g : Bool) → (a && not (u && g)) ≡ false → a ≡ true → (u ≡ true) × (g ≡ true)
gate-to a u g e on = (ground (arith, e, on), ground (arith, e, on))

gate-from : (a u g : Bool) → (a ≡ true → (u ≡ true) × (g ≡ true)) → (a && not (u && g)) ≡ false
gate-from false u g f = refl
gate-from true u g f = let w = f refl in rw (w.0, w.1) refl

all_pass :
    (p q r : Bool)
    → ((if p then err failure else if q then err failure else if r then err failure else ok 0)
        ≡ ok 0)
      ↔ ((p ≡ false) × (q ≡ false) × (r ≡ false))
all_pass p q r = (λ e. (ground arith, ground arith, ground arith), λ e. rw (e.0, e.1, e.2) refl)

-- `fiuba_access` succeeds exactly where each of R_OK, W_OK and X_OK that the mask asks for is
-- granted by the bits of both the owner and the group.
pub fiuba_access_iff :
    (i mask : ℕ) (fs : Fs)
    → let mode = (fs.inodes i).type_mode in
      (fiuba_access i mask fs ≡ ok 0)
      ↔ (Grants mode mask 4 256 32 × Grants mode mask 2 128 16 × Grants mode mask 1 64 8)
unfolding fiuba_access
fiuba_access_iff i mask fs =
    let mode = (fs.inodes i).type_mode in
    let passes =
      all_pass (refused mode mask 4 256 32) (refused mode mask 2 128 16)
        (refused mode mask 1 64 8) in
    (
      λ e.
          let p = passes.0 e in
          (
            gate-to (has_bit mask 4) (has_bit mode 256) (has_bit mode 32) p.0,
            gate-to (has_bit mask 2) (has_bit mode 128) (has_bit mode 16) p.1,
            gate-to (has_bit mask 1) (has_bit mode 64) (has_bit mode 8) p.2,
          ),
      λ g. passes.1 (
        gate-from (has_bit mask 4) (has_bit mode 256) (has_bit mode 32) g.0,
        gate-from (has_bit mask 2) (has_bit mode 128) (has_bit mode 16) g.1,
        gate-from (has_bit mask 1) (has_bit mode 64) (has_bit mode 8) g.2,
      ),
    )
