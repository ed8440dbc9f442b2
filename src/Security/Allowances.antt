-- ===== src/Security/Allowances.antt =====
-- A policy that allows more detects less (internal/service/security_posture.go).
use touchgrass.Base.{
  ◌≡◌, refl, inl, inr, Bool, true, false, not, ◌&&◌, ◌||◌, Text, text_eq, text_eq-eq, List, [], ◌∷◌,
  select, All, arith, Bool-cases,
}
use touchgrass.Security.Model.{Observation}
use touchgrass.Security.Posture.{
  SafeInspection, ContainerInstance, SecurityPolicy, folded, insert_sorted, sort, is_allowed,
  difference_fold, is_some_text, evaluate_posture,
}

-- `b` implies `c`.
abbrev pub implied : Bool → Bool → Bool
implied b c = not b || c

-- Every rule that the first list detects, the second detects in the same place.
abbrev pub IsBelow : List Observation → List Observation → Type 0
IsBelow [] [] = Unit
IsBelow (o ∷ os) (u ∷ us) =
    (o.rule_id ≡ u.rule_id) × (implied o.detected u.detected ≡ true) × IsBelow os us
IsBelow _ _ = true ≡ false

-- The policy `q` allows whatever `p` allows.
pub record IsWider (p q : SecurityPolicy) : Type 0 where
  pub privileged : implied p.allow_privileged q.allow_privileged ≡ true
  pub host_pid : implied p.allow_host_pid q.allow_host_pid ≡ true
  pub host_network : implied p.allow_host_network q.allow_host_network ≡ true
  pub docker_socket : implied p.allow_docker_socket q.allow_docker_socket ≡ true
  pub root : implied p.allow_root q.allow_root ≡ true
  pub writable : implied p.allow_writable_root_fs q.allow_writable_root_fs ≡ true
  pub capabilities : All (λ v. is_allowed v q.allowed_capabilities ≡ true) p.allowed_capabilities
  pub ports : All (λ v. is_allowed v q.allowed_published_ports ≡ true) p.allowed_published_ports

is_allowed-folded :
    (v w : Text) (ps : List Text) → folded v ≡ folded w → is_allowed v ps ≡ is_allowed w ps
unfolding is_allowed
is_allowed-folded v w [] e = refl
is_allowed-folded v w (a ∷ ps) e = rw e (rw (is_allowed-folded v w ps e) refl)

is_allowed-wider :
    (v : Text) (ps qs : List Text)
    → All (λ a. is_allowed a qs ≡ true) ps
    → is_allowed v ps ≡ true
    → is_allowed v qs ≡ true
unfolding is_allowed
is_allowed-wider v [] qs w h = ground arith
is_allowed-wider v (a ∷ ps) qs w h = elim (Bool-cases (text_eq (folded a) (folded v))) [
  | inl same ↦ ground (arith, w.0, is_allowed-folded a v qs (text_eq-eq (folded a) (folded v) same))
  | inr differ ↦ is_allowed-wider v ps qs w.1 (ground arith)
]

is_some_text-insert : (x : Text) (xs : List Text) → is_some_text (insert_sorted x xs) ≡ true
unfolding insert_sorted
is_some_text-insert x [] = refl
is_some_text-insert x (y ∷ ys) = ground arith

is_some_text-sort : (xs : List Text) → is_some_text (sort xs) ≡ is_some_text xs
unfolding sort
is_some_text-sort [] = refl
is_some_text-sort (x ∷ xs) = is_some_text-insert x (sort xs)

select-wider :
    (vs ps qs : List Text)
    → All (λ a. is_allowed a qs ≡ true) ps
    → implied
        (is_some_text (select (λ v. not (is_allowed v qs)) vs))
        (is_some_text (select (λ v. not (is_allowed v ps)) vs))
      ≡ true
unfolding select
select-wider [] ps qs w = refl
select-wider (v ∷ vs) ps qs w = ground (arith, select-wider vs ps qs w, is_allowed-wider v ps qs w)

difference_fold-wider :
    (vs ps qs : List Text)
    → All (λ a. is_allowed a qs ≡ true) ps
    → implied (is_some_text (difference_fold vs qs)) (is_some_text (difference_fold vs ps)) ≡ true
unfolding difference_fold
difference_fold-wider vs ps qs w =
    rw (is_some_text-sort (select (λ v. not (is_allowed v qs)) vs))
      (rw (is_some_text-sort (select (λ v. not (is_allowed v ps)) vs)) (select-wider vs ps qs w))

unless_allowed : (d p q : Bool) → implied p q ≡ true → implied (d && not q) (d && not p) ≡ true
unless_allowed d p q h = ground arith

-- Under a policy that allows whatever another allows, the posture rules of a container are the same
-- ones in the same order, and none is detected that the other policy does not detect.
evaluate_posture-wider :
    (c : ContainerInstance) (i : SafeInspection) (fingerprint : Text) (p q : SecurityPolicy)
    → IsWider p q
    → IsBelow (evaluate_posture c i fingerprint q) (evaluate_posture c i fingerprint p)
unfolding evaluate_posture
evaluate_posture-wider c i fingerprint p q w = (
  refl,
  unless_allowed _ p.allow_privileged q.allow_privileged w.privileged,
  (
    refl,
    unless_allowed _ p.allow_host_pid q.allow_host_pid w.host_pid,
    (
      refl,
      ground arith,
      (
        refl,
        unless_allowed _ p.allow_host_network q.allow_host_network w.host_network,
        (
          refl,
          unless_allowed _ p.allow_docker_socket q.allow_docker_socket w.docker_socket,
          (
            refl,
            unless_allowed _ p.allow_root q.allow_root w.root,
            (
              refl,
              unless_allowed _ p.allow_writable_root_fs q.allow_writable_root_fs w.writable,
              (
                refl,
                difference_fold-wider i.cap_add p.allowed_capabilities q.allowed_capabilities
                    w.capabilities,
                (
                  refl,
                  ground arith,
                  (
                    refl,
                    ground arith,
                    (
                      refl,
                      ground arith,
                      (
                        refl,
                        difference_fold-wider i.published_ports p.allowed_published_ports
                            q.allowed_published_ports w.ports,
                        (refl, ground arith, (refl, ground arith, (refl, ground arith, tt))),
                      ),
                    ),
                  ),
                ),
              ),
            ),
          ),
        ),
      ),
    ),
  ),
)
