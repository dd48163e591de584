-- ===== src/Host/Consumer/Manager.antt =====
-- The consumers of `TraceManager`.
use t_espresso.Base.{
  ℕ, zero, suc, ◌+◌, ◌≤◌, ◌<◌, ◌≡◌, refl, sym, ap, ◌∙◌, true, false, leb, some, none, List, [], ◌∷◌,
  length, get_elem?, arith,
}
use t_espresso.Host.Interface.{Globals}
use t_espresso.Host.Consumer.{
  HostSystem, Consumer, TraceManager, zero_manager, construct, construct_all, init_consumers,
  get_consumer, pos, negsuc,
}

-- The consumers of the devices from `device` on.
abbrev AreMade : HostSystem → Globals → ℕ → List Consumer → Type 0
AreMade sys g device [] = Unit {0}
AreMade sys g device (c ∷ cs) = (construct sys g device ≡ some c) × AreMade sys g (suc device) cs

construct_all-AreMade :
    (sys : HostSystem) (g : Globals) (device n : ℕ)
    → ((i : ℕ) → i < device + n → (c : Consumer) × (construct sys g i ≡ some c))
    → (cs : List Consumer) × (construct_all sys g device n ≡ some cs)
      × (length cs ≡ n)
      × AreMade sys g device cs
unfolding construct_all
construct_all-AreMade sys g device zero all = ([], refl, refl, tt)
construct_all-AreMade sys g device (suc n) all =
    let (c, made) = all device (omega arith) in
    let (cs, e, len, mades) =
      construct_all-AreMade sys g (suc device) n (λ i below. all i (omega arith)) in
    (c ∷ cs, rw (construct_all, made, e) refl, ap suc len, (made, mades))

get_made :
    (sys : HostSystem) (g : Globals) (device i : ℕ) (cs : List Consumer)
    → AreMade sys g device cs
    → i < length cs
    → (c : Consumer) × (get_elem? cs i ≡ some c) × (construct sys g (device + i) ≡ some c)
get_made sys g device i [] mades below = absurd (omega arith)
get_made sys g device zero (c ∷ cs) (made, mades) below =
    let same : device + 0 ≡ device = omega arith in (c, refl, ap (construct sys g) same ∙ made)
get_made sys g device (suc i) (c ∷ cs) (made, mades) below =
    let (c', e, made') = get_made sys g (suc device) i cs mades (omega arith) in
    let same : device + suc i ≡ suc device + i = omega arith in
    (c', e, ap (construct sys g) same ∙ made')

-- When a consumer can be constructed for every device, the first call of initConsumers constructs
-- them all, another call changes nothing, and getConsumer gives for a device of the system the
-- consumer that was constructed with its number, for a number from the count of the devices on the
-- null pointer, and for a negative number reads outside of the consumers.
pub init_consumers-get_consumer :
    (sys : HostSystem) (g : Globals) (device_count : ℕ)
    → ((i : ℕ) → i < device_count → (c : Consumer) × (construct sys g i ≡ some c))
    → (m : TraceManager) × (init_consumers sys g device_count zero_manager ≡ some m)
      × ((g' : Globals) (n : ℕ) → init_consumers sys g' n m ≡ some m)
      × ((i : ℕ)
          → i < device_count
          → (c : Consumer) × (construct sys g i ≡ some c)
            × (get_consumer m (pos i) ≡ some (some c)))
      × ((i : ℕ) → device_count ≤ i → get_consumer m (pos i) ≡ some none)
      × ((i : ℕ) → get_consumer m (negsuc i) ≡ none)
unfolding init_consumers get_consumer
init_consumers-get_consumer sys g device_count all =
    let (cs, e, len, mades) =
      construct_all-AreMade sys g 0 device_count (λ i below. all i (omega arith)) in
    (
      record { consumers = some cs; device_count = device_count },
      rw (init_consumers, e) refl,
      λ g' n. refl,
      λ i below.
          let (c, at, made) = get_made sys g 0 i cs mades (omega (arith, len)) in
          let inside : leb device_count i ≡ false = ground arith in
          let same : 0 + i ≡ i = omega arith in
          (c, sym (ap (construct sys g) same) ∙ made, rw (get_consumer, inside, at) refl),
      λ i outside.
          let e_out : leb device_count i ≡ true = ground arith in rw (get_consumer, e_out) refl,
      λ i. refl,
    )
