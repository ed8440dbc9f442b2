-- ===== src/Security/Posture.antt =====
-- The posture rules (internal/service/security_posture.go) over what a container's inspection
-- keeps (internal/model/containers.go). The texts that rules fold the case of are ASCII; the
-- fingerprint of the inspection is an argument.
use touchgrass.Base.{
  ℕ, ◌-◌, Bool, true, false, not, ◌&&◌, ◌||◌, ◌==◌, ltb, leb, if◌then◌else◌, Text, bytes, text_eq,
  is_empty, contains, Option, none, some, List, [], ◌∷◌, ◌++◌, select,
}
use touchgrass.Base.Ints.{ℤ, pos, negsuc}
use touchgrass.Security.Model.{Severity, Confidence, Category, Evidence, Observation}

-- The part of `SafeInspection` that the rules read.
pub record SafeInspection : Type 0 where
  pub user : Text
  pub privileged : Bool
  pub readonly_root_fs : Bool
  pub cap_add : List Text
  pub pid_mode : Text
  pub ipc_mode : Text
  pub network_mode : Text
  pub memory_bytes : ℤ
  pub nano_cpus : ℤ
  pub pids_limit : Option ℤ
  pub published_ports : List Text
  pub has_docker_socket : Bool

-- The part of `ContainerInstance` that the rules read.
pub record ContainerInstance : Type 0 where
  pub id : Text
  pub image : Text
  pub image_id : Text
  pub image_fingerprint : Text
  pub configuration_fingerprint : Text

-- The part of `SecurityPolicy` that the rules read.
pub record SecurityPolicy : Type 0 where
  pub allow_privileged : Bool
  pub allow_host_pid : Bool
  pub allow_host_network : Bool
  pub allow_docker_socket : Bool
  pub allow_root : Bool
  pub allow_writable_root_fs : Bool
  pub allowed_capabilities : List Text
  pub allowed_published_ports : List Text

abbrev is_space : ℕ → Bool
is_space c = (leb 9 c && leb c 13) || c == 32

unfoldable trim_left : Text → Text
trim_left [] = []
trim_left (c ∷ s) = let rest = trim_left s in if is_space c then rest else c ∷ s

unfoldable trim_right : Text → Text
unfolding is_empty
trim_right [] = []
trim_right (c ∷ s) = let rest = trim_right s in if is_empty rest && is_space c then [] else c ∷ rest

unfoldable pub to_upper : Text → Text
to_upper [] = []
to_upper (c ∷ s) = (if leb b'a' c && leb c b'z' then c - 32 else c) ∷ to_upper s

-- `strings.ToUpper(strings.TrimSpace(value))`
unfoldable pub folded : Text → Text
unfolding trim_left trim_right to_upper
folded value = to_upper (trim_right (trim_left value))

unfoldable has_suffix : Text → Text → Bool
has_suffix [] p = is_empty p
has_suffix (c ∷ s) p = text_eq (c ∷ s) p || has_suffix s p

-- The order of Go strings.
unfoldable text_leb : Text → Text → Bool
text_leb [] t = true
text_leb (c ∷ s) [] = false
text_leb (c ∷ s) (d ∷ t) = ltb c d || (c == d && text_leb s t)

unfoldable pub insert_sorted : Text → List Text → List Text
unfolding text_leb
insert_sorted x [] = x ∷ []
insert_sorted x (y ∷ ys) =
    let rest = insert_sorted x ys in if text_leb x y then x ∷ y ∷ ys else y ∷ rest

-- `slices.Sort`
unfoldable pub sort : List Text → List Text
sort [] = []
sort (x ∷ xs) = insert_sorted x (sort xs)

-- A value of the set that `differenceFold` builds.
unfoldable pub is_allowed : Text → List Text → Bool
is_allowed value [] = false
is_allowed value (a ∷ others) = text_eq (folded a) (folded value) || is_allowed value others

-- `differenceFold`
unfoldable pub difference_fold : List Text → List Text → List Text
difference_fold values allowed = sort (select (λ value. not (is_allowed value allowed)) values)

-- `strings.Join(values, ",")`
unfoldable join : List Text → Text
join [] = []
join (s ∷ []) = s
join (s ∷ t ∷ ts) = s ++ (bytes "," ++ join (t ∷ ts))

abbrev pub bool_evidence : Text → Bool → Evidence
bool_evidence key item = (key, if item then bytes "true" else bytes "false") ∷ []

abbrev pub value_evidence : Text → Text → Evidence
value_evidence key item = (key, item) ∷ []

-- `postureCategory`
unfoldable pub posture_category : Text → Category
unfolding has_suffix
posture_category rule =
    if has_suffix rule (bytes ".drift") then Category.drift else Category.posture

-- `value <= 0`
abbrev pub is_unset : ℤ → Bool
is_unset (pos n) = n == 0
is_unset (negsuc n) = true

-- A pointer that is nil or points to such a value.
abbrev pub has_no_limit : Option ℤ → Bool
has_no_limit none = true
has_no_limit (some n) = is_unset n

abbrev pub is_some_text : List Text → Bool
is_some_text [] = false
is_some_text (x ∷ xs) = true

-- The closure `add` of `EvaluatePosture`; the observed time is Go's zero.
abbrev pub add : Text → Text → Severity → Bool → Evidence → Observation
add container rule severity detected evidence = record {
  container_id = container;
  rule_id = rule;
  category = posture_category rule;
  severity = severity;
  confidence = Confidence.high;
  detected = detected;
  coverage_complete = true;
  evidence = evidence;
  observed_at = 0;
}

abbrev pub is_root : Text → Bool
is_root user = is_empty user || (text_eq user (bytes "0") || text_eq (to_upper user) (bytes "ROOT"))

-- `EvaluatePosture`, with `store.FingerprintInspection(inspection)`.
unfoldable pub evaluate_posture :
    ContainerInstance → SafeInspection → Text → SecurityPolicy → List Observation
unfolding join to_upper
evaluate_posture c i fingerprint p =
    let note = add c.id in
    let host = bytes "host" in
    let caps = difference_fold i.cap_add p.allowed_capabilities in
    let ports = difference_fold i.published_ports p.allowed_published_ports in
    let no_pids_limit = has_no_limit i.pids_limit in
    let mutable = not (is_empty c.image) && not (contains c.image (bytes "@sha256:")) in
    let image_drift =
      not (is_empty c.image_fingerprint) && not (text_eq c.image_fingerprint c.image_id) in
    let drift =
      not (is_empty c.configuration_fingerprint)
      && not (text_eq c.configuration_fingerprint fingerprint) in
    note (bytes "posture.privileged") Severity.critical (i.privileged && not p.allow_privileged)
      (bool_evidence (bytes "privileged") i.privileged)
    ∷ note (bytes "posture.host_pid") Severity.critical
        (text_eq i.pid_mode host && not p.allow_host_pid)
        (value_evidence (bytes "pid_mode") i.pid_mode)
    ∷ note (bytes "posture.host_ipc") Severity.high (text_eq i.ipc_mode host)
        (value_evidence (bytes "ipc_mode") i.ipc_mode)
    ∷ note (bytes "posture.host_network") Severity.high
        (text_eq i.network_mode host && not p.allow_host_network)
        (value_evidence (bytes "network_mode") i.network_mode)
    ∷ note (bytes "posture.docker_socket") Severity.critical
        (i.has_docker_socket && not p.allow_docker_socket)
        (bool_evidence (bytes "docker_socket") i.has_docker_socket)
    ∷ note (bytes "posture.root_user") Severity.high (is_root i.user && not p.allow_root)
        (bool_evidence (bytes "root_user") (is_root i.user))
    ∷ note (bytes "posture.writable_rootfs") Severity.medium
        (not i.readonly_root_fs && not p.allow_writable_root_fs)
        (bool_evidence (bytes "writable_rootfs") (not i.readonly_root_fs))
    ∷ note (bytes "posture.capabilities") Severity.high (is_some_text caps)
        (value_evidence (bytes "unexpected_capabilities") (join caps))
    ∷ note (bytes "posture.memory_unlimited") Severity.medium (is_unset i.memory_bytes)
        (bool_evidence (bytes "memory_limit_missing") (is_unset i.memory_bytes))
    ∷ note (bytes "posture.cpu_unlimited") Severity.medium (is_unset i.nano_cpus)
        (bool_evidence (bytes "cpu_limit_missing") (is_unset i.nano_cpus))
    ∷ note (bytes "posture.pids_unlimited") Severity.medium no_pids_limit
        (bool_evidence (bytes "pids_limit_missing") no_pids_limit)
    ∷ note (bytes "posture.published_ports") Severity.high (is_some_text ports)
        (value_evidence (bytes "unexpected_ports") (join ports))
    ∷ note (bytes "image.mutable_tag") Severity.medium mutable
        (bool_evidence (bytes "mutable_tag") mutable)
    ∷ note (bytes "image.drift") Severity.high image_drift
        (bool_evidence (bytes "image_fingerprint_changed") image_drift)
    ∷ note (bytes "configuration.drift") Severity.high drift
        (bool_evidence (bytes "configuration_fingerprint_changed") drift)
    ∷ []
