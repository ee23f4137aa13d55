-- ===== src/BootDoctor/Catalog.antt =====
-- The boot doctor's catalogue of findings, internal/recovery/bootdoctor/catalog.go.
mod Spec
mod Layout
mod Chain
pub use Spec.{CodeSpec}
use Layout.{firmware_specs, windows_specs, esp_specs}
use Chain.{bcd_specs, bitlocker_and_storage_specs, topology_specs}
use effexor_win_doctor.Prelude.{
  String, ◌==◌, if◌then◌else◌, Option, none, some, List, [], ◌∷◌, ◌++◌,
}

abbrev pub catalog : List (String × CodeSpec)
catalog =
    firmware_specs
    ++ (windows_specs
        ++ (esp_specs ++ (bcd_specs ++ (bitlocker_and_storage_specs ++ topology_specs))))

-- `cat[code]`
unfoldable pub spec_of : List (String × CodeSpec) → String → Option CodeSpec
spec_of [] code = none
spec_of ((c, spec) ∷ specs) code = if c == code then some spec else spec_of specs code
