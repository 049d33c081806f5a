-- ===== src/Pci/Scan.antt =====
-- The addresses, the descriptors and the scan of the PCI controller.
use implementing_os_and_syst.Base.{
  ℕ, zero, suc, ◌+◌, ◌*◌, ◌/◌, ◌^◌, ◌≤◌, ◌<◌, ◌≡◌, sym, ap, subst, ◌⊎◌, inl, inr, Bool, true, false,
  Bool-cases, List, [], ◌∷◌, ◌++◌, not, if◌then◌else◌, ℕ_discrete, arith,
}
use implementing_os_and_syst.Pci.{
  config_address, read, device_has_functions, BaseAddressRegister, DeviceDescriptor,
  get_device_descriptor, port_from, is_absent, select_functions, select_devices, select_buses,
  select_drivers,
}

-- The address of a register tells its bus, its device, its function and its word apart from all others.
pub config_address-injective :
    (b d f o b' d' f' o' : ℕ)
    → (b < 256) × (d < 32) × (f < 8) × (o < 256)
    → (b' < 256) × (d' < 32) × (f' < 8) × (o' < 256)
    → config_address b d f o ≡ config_address b' d' f' o'
    → (b ≡ b') × (d ≡ d') × (f ≡ f') × (o / 4 ≡ o' / 4)
unfolding config_address
config_address-injective b d f o b' d' f' o' p q e =
    (omega arith, omega arith, omega arith, omega arith)

abbrev pub In : {A : Type 0} → A → List A → Type 0
In x [] = ⊥
In x (y ∷ ys) = (y ≡ x) ⊎ In x ys

In-left : {A : Type 0} (x : A) (xs ys : List A) → In x xs → In x (xs ++ ys)
In-left x [] ys h = absurd h
In-left x (z ∷ xs) ys (inl e) = inl e
In-left x (z ∷ xs) ys (inr h) = inr (In-left x xs ys h)

In-right : {A : Type 0} (x : A) (xs ys : List A) → In x ys → In x (xs ++ ys)
In-right x [] ys h = h
In-right x (z ∷ xs) ys h = inr (In-right x xs ys h)

module _ (space : ℕ → ℕ) (fresh : BaseAddressRegister) (fresh_port : ℕ) where
  abbrev pub found : ℕ → ℕ → ℕ → DeviceDescriptor
  found b d f =
      port_from space fresh fresh_port 6 0 (get_device_descriptor space fresh fresh_port b d f)

  abbrev pub responds : ℕ → ℕ → ℕ → Bool
  responds b d f =
      not (is_absent space fresh fresh_port (get_device_descriptor space fresh fresh_port b d f))

  here_lem :
      (b d k f i : ℕ)
      → f ≡ i
      → responds b d i ≡ true
      → In (found b d i) (select_functions space fresh fresh_port b d (suc k) f)
  unfolding select_functions
  here_lem b d k f i e r =
      let a : is_absent space fresh fresh_port (get_device_descriptor space fresh fresh_port b d f)
          ≡ false =
        ground (arith, r, e) in
      rw a (inl (ap (found b d) e))

  keep_lem :
      (b d k f i : ℕ)
      → In (found b d i) (select_functions space fresh fresh_port b d k (f + 1))
      → In (found b d i) (select_functions space fresh fresh_port b d (suc k) f)
  unfolding select_functions
  keep_lem b d k f i h =
      elim (Bool-cases
        (is_absent space fresh fresh_port (get_device_descriptor space fresh fresh_port b d f))) [
          | inl t ↦ rw t h
          | inr t ↦ rw t (inr h)
        ]

  functions_lem :
      (b d k f i : ℕ)
      → f ≤ i
      → i < f + k
      → responds b d i ≡ true
      → In (found b d i) (select_functions space fresh fresh_port b d k f)
  unfolding select_functions
  functions_lem b d zero f i l u r = absurd (omega arith)
  functions_lem b d (suc k) f i l u r = elim (ℕ_discrete f i) [
    | yes e ↦ here_lem b d k f i e r
    | no o ↦ keep_lem b d k f i (functions_lem b d k (f + 1) i (omega arith) (omega arith) r)
  ]

  devices_lem :
      (b k d i f : ℕ)
      → d ≤ i
      → i < d + k
      → f < (if device_has_functions space b i then 8 else 1)
      → responds b i f ≡ true
      → In (found b i f) (select_devices space fresh fresh_port b k d)
  unfolding select_devices
  devices_lem b zero d i f l u g r = absurd (omega arith)
  devices_lem b (suc k) d i f l u g r = elim (ℕ_discrete d i) [
    | yes e ↦ In-left (found b i f) _ _ (
        subst
          (λ j. In (found b i f) (
            select_functions space fresh fresh_port b j
              (if device_has_functions space b j then 8 else 1) 0))
          (sym e)
          (functions_lem b i (if device_has_functions space b i then 8 else 1) 0 f (omega arith)
            (omega arith) r))
    | no o ↦
        In-right (found b i f) _ _ (devices_lem b k (d + 1) i f (omega arith) (omega arith) g r)
  ]

  buses_lem :
      (k b i d f : ℕ)
      → b ≤ i
      → i < b + k
      → d < 32
      → f < (if device_has_functions space i d then 8 else 1)
      → responds i d f ≡ true
      → In (found i d f) (select_buses space fresh fresh_port k b)
  unfolding select_buses
  buses_lem zero b i d f l u n g r = absurd (omega arith)
  buses_lem (suc k) b i d f l u n g r = elim (ℕ_discrete b i) [
    | yes e ↦ In-left (found i d f) _ _ (
        subst (λ j. In (found i d f) (select_devices space fresh fresh_port j 32 0)) (sym e)
          (devices_lem i 32 0 d f (omega arith) (omega arith) g r))
    | no o ↦
        In-right (found i d f) _ _ (buses_lem k (b + 1) i d f (omega arith) (omega arith) n g r)
  ]

  -- SelectDrivers looks for a driver for every function that responds on one of the 8 buses, 32 devices
  -- each: function 0, and the functions 1 to 7 of a device that says that it has several.
  pub select_drivers_lem :
      (b d f : ℕ)
      → b < 8
      → d < 32
      → f < (if device_has_functions space b d then 8 else 1)
      → responds b d f ≡ true
      → In (found b d f) (select_drivers space fresh fresh_port)
  unfolding select_drivers
  select_drivers_lem b d f l n g r = buses_lem 8 0 b d f (omega arith) (omega arith) n g r

-- GetDeviceDescriptor takes apart the words of the configuration header: vendor and device in the first,
-- revision, interface, subclass and class in the third, and the interrupt in the word at 0x3c.
pub get_device_descriptor_lem :
    (space : ℕ → ℕ) (fresh : BaseAddressRegister) (fresh_port : ℕ)
    (b d f vendor device revision interface subclass class : ℕ)
    → (vendor < 2 ^ 16) × (device < 2 ^ 16)
    → (revision < 256) × (interface < 256) × (subclass < 256) × (class < 256)
    → space (config_address b d f 0) ≡ vendor + 2 ^ 16 * device
    → space (config_address b d f 8)
      ≡ revision + 256 * interface + 2 ^ 16 * subclass + 2 ^ 24 * class
    → get_device_descriptor space fresh fresh_port b d f ≡ record {
      port_base = fresh_port;
      interrupt = space (config_address b d f 0x3c);
      bus = b;
      device = d;
      function = f;
      vendor_id = vendor;
      device_id = device;
      class_id = class;
      subclass_id = subclass;
      interface_id = interface;
      revision = revision;
    }
unfolding get_device_descriptor read config_address
get_device_descriptor_lem space fresh fresh_port b d f vendor device revision interface subclass
      class p q e g =
    rw (e, g) (ground arith)
