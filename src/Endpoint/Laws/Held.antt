-- ===== src/Endpoint/Laws/Held.antt =====
-- Mappings that were obtained are accounted for: by an owner, or by a release.
use tailscale_derp.Base.{
  ◌≡◌, Bool, true, false, ◌||◌, Option, none, some, List, [], ◌∷◌, arith, any,
}
use tailscale_derp.Portmap.{Mapping}
use tailscale_derp.Endpoint.{
  Event, asked_ipv4, asked_ipv6, asked_network, asked_mapping, withdrew, mapped, released,
  certified, validated_at, published_at, Log,
}
use tailscale_derp.Endpoint.Operations.{same_mapping}
use tailscale_derp.Endpoint.Laws.Same.{same_mapping_refl, same_mapping_cong}

abbrev pub same : Mapping → Mapping → Bool
same x y = same_mapping (some y) (some x)

abbrev pub was_released : Mapping → Log → Bool
was_released x [] = false
was_released x (released y ∷ log) = same x y || was_released x log
was_released x (asked_ipv4 ∷ log) = was_released x log
was_released x (asked_ipv6 ∷ log) = was_released x log
was_released x (asked_network ∷ log) = was_released x log
was_released x (asked_mapping ∷ log) = was_released x log
was_released x (withdrew ∷ log) = was_released x log
was_released x (mapped y ∷ log) = was_released x log
was_released x (certified ips ∷ log) = was_released x log
was_released x (validated_at e ∷ log) = was_released x log
was_released x (published_at e ∷ log) = was_released x log

-- `P` of every mapping that the mapper gave.
abbrev pub AllMapped : (Mapping → Type 0) → Log → Type 0
AllMapped P [] = Unit
AllMapped P (mapped y ∷ log) = P y × AllMapped P log
AllMapped P (released y ∷ log) = AllMapped P log
AllMapped P (asked_ipv4 ∷ log) = AllMapped P log
AllMapped P (asked_ipv6 ∷ log) = AllMapped P log
AllMapped P (asked_network ∷ log) = AllMapped P log
AllMapped P (asked_mapping ∷ log) = AllMapped P log
AllMapped P (withdrew ∷ log) = AllMapped P log
AllMapped P (certified ips ∷ log) = AllMapped P log
AllMapped P (validated_at e ∷ log) = AllMapped P log
AllMapped P (published_at e ∷ log) = AllMapped P log

abbrev pub own : Option Mapping → List Mapping
own none = []
own (some x) = x ∷ []

-- Each mapping that was given is the same as an owner's, or as one that was released.
pub record Held (owners : List Mapping) (log : Log) : Type 0 where
  pub each : AllMapped (λ x. (any owners (same x) || was_released x log) ≡ true) log

AllMapped-mono :
    (P Q : Mapping → Type 0) (log : Log)
    → ((x : Mapping) → P x → Q x)
    → AllMapped P log
    → AllMapped Q log
AllMapped-mono P Q [] f h = tt
AllMapped-mono P Q (mapped y ∷ log) f h = (f y h.0, AllMapped-mono P Q log f h.1)
AllMapped-mono P Q (released y ∷ log) f h = AllMapped-mono P Q log f h
AllMapped-mono P Q (asked_ipv4 ∷ log) f h = AllMapped-mono P Q log f h
AllMapped-mono P Q (asked_ipv6 ∷ log) f h = AllMapped-mono P Q log f h
AllMapped-mono P Q (asked_network ∷ log) f h = AllMapped-mono P Q log f h
AllMapped-mono P Q (asked_mapping ∷ log) f h = AllMapped-mono P Q log f h
AllMapped-mono P Q (withdrew ∷ log) f h = AllMapped-mono P Q log f h
AllMapped-mono P Q (certified ips ∷ log) f h = AllMapped-mono P Q log f h
AllMapped-mono P Q (validated_at e ∷ log) f h = AllMapped-mono P Q log f h
AllMapped-mono P Q (published_at e ∷ log) f h = AllMapped-mono P Q log f h

pub Held-mapped :
    (y : Mapping) (os : List Mapping) (log : Log) → Held os log → Held (y ∷ os) (mapped y ∷ log)
Held-mapped y os log h = record {
  each = (ground (arith, same_mapping_refl y), AllMapped-mono _ _ log (λ x p. ground arith) h.each);
}

pub Held-released :
    (y : Mapping) (os : List Mapping) (log : Log) → Held (y ∷ os) log → Held os (released y ∷ log)
Held-released y os log h = record { each = AllMapped-mono _ _ log (λ x p. ground arith) h.each }

-- The owner `b` gives way to `a`, which is the same mapping.
pub Held-same :
    (a b : Mapping) (os : List Mapping) (log : Log)
    → same_mapping (some b) (some a) ≡ true
    → Held (a ∷ b ∷ os) log
    → Held (a ∷ os) log
Held-same a b os log e h = record {
  each = AllMapped-mono _ _ log (λ x p. ground (arith, same_mapping_cong b a x e)) h.each;
}

pub Held-swap : (a b : Mapping) (log : Log) → Held (a ∷ b ∷ []) log → Held (b ∷ a ∷ []) log
Held-swap a b log h = record { each = AllMapped-mono _ _ log (λ x p. ground arith) h.each }

-- An event that gives and takes no mapping.
abbrev pub IsNeutral : Event → Type 0
IsNeutral (mapped y) = ⊥
IsNeutral (released y) = ⊥
IsNeutral _ = Unit

pub Held-neutral :
    (e : Event) (os : List Mapping) (log : Log) → IsNeutral e → Held os log → Held os (e ∷ log)
Held-neutral (mapped y) os log n h = absurd n
Held-neutral (released y) os log n h = absurd n
Held-neutral asked_ipv4 os log n h = record { each = h.each }
Held-neutral asked_ipv6 os log n h = record { each = h.each }
Held-neutral asked_network os log n h = record { each = h.each }
Held-neutral asked_mapping os log n h = record { each = h.each }
Held-neutral withdrew os log n h = record { each = h.each }
Held-neutral (certified ips) os log n h = record { each = h.each }
Held-neutral (validated_at e) os log n h = record { each = h.each }
Held-neutral (published_at e) os log n h = record { each = h.each }
