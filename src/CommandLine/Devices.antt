-- ===== src/CommandLine/Devices.antt =====
-- The block devices that `main` gives a role to.
use os_pintos.Base.{
  ℕ, ◌≡◌, refl, ◌≢◌, Bool, true, false, if◌then◌else◌, Option, none, some, List, [], ◌∷◌, ◌++◌,
}
use os_pintos.Boot.{Text, Build, Role, Event, Boot, finished, when}
use os_pintos.CommandLine.{OptionValues}
use os_pintos.Main.{Blocks, first_of_type, locate_block_device, locate_block_devices}

module _ (blocks : Blocks) where
  -- A device of this name is there, if one is named.
  abbrev pub IsPresent : Option Text → Type 0
  IsPresent none = Unit
  IsPresent (some name) = blocks.block_get_by_name name ≢ none

  abbrev pub device_for : Role → Option Text → Option ℕ
  device_for role none = first_of_type role blocks.probed
  device_for role (some name) = blocks.block_get_by_name name

  abbrev pub given : Role → Option ℕ → List Event
  given role none = []
  given role (some block) = Event.set_role role block ∷ []

  abbrev pub role_given : Role → Option Text → List Event
  role_given role name = given role (device_for role name)

  locate_block_device_lem :
      (role : Role) (name : Option Text)
      → IsPresent name
      → locate_block_device blocks role name ≡ finished tt (role_given role name)
  unfolding locate_block_device
  locate_block_device_lem role none h = unnamed (first_of_type role blocks.probed) refl
    where
      unnamed :
          (b : Option ℕ)
          → first_of_type role blocks.probed ≡ b
          → locate_block_device blocks role none
            ≡ finished tt (given role (first_of_type role blocks.probed))
      unnamed none e = rw (e, locate_block_device) refl
      unnamed (some block) e = rw (e, locate_block_device) refl
  locate_block_device_lem role (some name) h = named (blocks.block_get_by_name name) refl
    where
      named :
          (b : Option ℕ)
          → blocks.block_get_by_name name ≡ b
          → locate_block_device blocks role (some name)
            ≡ finished tt (given role (blocks.block_get_by_name name))
      named none e = elim (h e) [ ]
      named (some block) e = rw (e, locate_block_device) refl

  abbrev pub AllPresent : OptionValues → Type 0
  AllPresent o =
      IsPresent o.filesys_bdev_name × IsPresent o.scratch_bdev_name × IsPresent o.swap_bdev_name

  -- Code under #ifdef that ends has its events if the build has it.
  pub when-finished :
      (b : Bool) (m : Boot (Unit {0})) (es : List Event)
      → m ≡ finished tt es
      → when b m ≡ finished tt (if b then es else [])
  when-finished true m es h = h
  when-finished false m es h = refl

  abbrev pub roles_given : Build → OptionValues → List Event
  roles_given build o =
      role_given Role.filesys o.filesys_bdev_name
      ++ (role_given Role.scratch o.scratch_bdev_name
          ++ (if build.vm then role_given Role.swap o.swap_bdev_name else []))

  pub locate_block_devices_lem :
      (build : Build) (o : OptionValues)
      → AllPresent o
      → locate_block_devices blocks build o ≡ finished tt (roles_given build o)
  unfolding locate_block_devices
  locate_block_devices_lem build o (hf, hs, hw) =
      rw (locate_block_device_lem Role.filesys o.filesys_bdev_name hf) (
        rw (locate_block_device_lem Role.scratch o.scratch_bdev_name hs) (
          rw
            (when-finished build.vm (locate_block_device blocks Role.swap o.swap_bdev_name)
              (role_given Role.swap o.swap_bdev_name)
              (locate_block_device_lem Role.swap o.swap_bdev_name hw))
            refl))
