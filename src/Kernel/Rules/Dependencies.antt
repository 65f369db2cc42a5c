-- ===== src/Kernel/Rules/Dependencies.antt =====
-- Dependencies on grounds: `dependencies_valid`, `merged` and those of decisions and agreements.
use changekernel.Base.{
  List, [], ◌∷◌, ◌++◌, Option, none, some, Bool, false, ◌&&◌, Result, ok, reject_if, ◌>>=◌, ◌>>◌,
  is_some,
}
use changekernel.Base.Order.{◌==◌, ◌!=◌, option_eq}
use changekernel.Base.Lists.{any}
use changekernel.Base.BTreeSet
use changekernel.Base.BTreeSet.{BTreeSet}
use changekernel.Base.BTreeMap.{BTreeMap, get, insert}
use changekernel.Kernel.Ids.{AgreementId, GroundId, GroundVersion, Error, id_eq, id_ord}
use changekernel.Kernel.Model.Terms.{Dependency, Proposal, Decision, DecisionKind}
use changekernel.Kernel.State.{State, Validation}
use changekernel.Kernel.Rules.Lookup.{proposal, assessment, decision, agreement, current_agreement}

abbrev pub Grounds : Type 0
Grounds = BTreeMap GroundId GroundVersion

-- The loop of `dependencies_valid`, over the map `seen`.
unfoldable pub valid_from : Grounds → List Dependency → Grounds → Result Error (Unit {0})
valid_from seen [] current = ok tt
valid_from seen (d ∷ deps) current = do
  reject_if (is_some (get seen d.ground_fact)) Error.invalid
  reject_if (get current d.ground_fact != some d.version) Error.stale
  valid_from (insert d.ground_fact d.version seen) deps current

unfoldable pub dependencies_valid : List Dependency → Grounds → Result Error (Unit {0})
dependencies_valid deps current = valid_from [] deps current

-- `map.into_iter().map(|(ground, version)| Dependency { ground, version }).collect()`
unfoldable pub to_dependencies : Grounds → List Dependency
to_dependencies [] = []
to_dependencies ((g, v) ∷ m) = record { ground_fact = g; version = v } ∷ to_dependencies m

-- An earlier version of the same ground, other than the one inserted.
abbrev pub differs : Option GroundVersion → GroundVersion → Bool
differs none v = false
differs (some w) v = w != v

-- The loop of `merged`.
unfoldable pub merge_from : Grounds → List Dependency → Result Error Grounds
merge_from m [] = ok m
merge_from m (d ∷ deps) = do
  reject_if (differs (get m d.ground_fact) d.version) Error.stale
  merge_from (insert d.ground_fact d.version m) deps

unfoldable pub merged : List Dependency → Result Error (List Dependency)
merged deps = do m ← merge_from [] deps; ok (to_dependencies m)

-- `deps.insert(dep.ground.clone(), dep.version.clone())` for each
unfoldable pub insert_all : List Dependency → Grounds → Grounds
insert_all [] m = m
insert_all (d ∷ deps) m = insert_all deps (insert d.ground_fact d.version m)

-- A dependency of the decision on a ground that the assessment holds at another version.
unfoldable pub contradicts : List Dependency → List Dependency → Bool
contradicts own assessed =
    any (λ dep. any (λ a. a.ground_fact == dep.ground_fact && a.version != dep.version) assessed)
      own

-- The part of `decision_dependencies` under `if let DecisionKind::Undertake`.
unfoldable pub with_assessment :
    State → Proposal → Decision → DecisionKind → Grounds → Result Error Grounds
unfolding assessment
with_assessment s p d DecisionKind.adopt deps = ok deps
with_assessment s p d (DecisionKind.undertake id) deps = do
  a ← assessment s id
  reject_if (a.proposal != p.id) Error.conflict
  reject_if (contradicts d.dependencies a.dependencies) Error.stale
  ok (insert_all a.dependencies deps)

-- The last loop of `decision_dependencies`: each ground once.
unfoldable pub insert_own : BTreeSet GroundId → List Dependency → Grounds → Result Error Grounds
insert_own seen [] deps = ok deps
insert_own seen (d ∷ rest) deps = do
  reject_if (BTreeSet.contains seen d.ground_fact) Error.invalid
  insert_own (BTreeSet.insert d.ground_fact seen) rest (insert d.ground_fact d.version deps)

unfoldable pub decision_dependencies : State → Decision → Result Error (List Dependency)
unfolding proposal
decision_dependencies s d = do
  p ← proposal s d.proposal
  deps ← with_assessment s p d d.kind (insert_all p.dependencies [])
  all_deps ← insert_own [] d.dependencies deps
  ok (to_dependencies all_deps)

unfoldable pub agreement_dependencies : State → AgreementId → Result Error (List Dependency)
agreement_dependencies s id = do
  a ← agreement s id
  adoption ← decision s a.adoption
  adopted ← decision_dependencies s adoption.decision
  undertaking ← decision s a.undertaking
  undertaken ← decision_dependencies s undertaking.decision
  merged (adopted ++ undertaken)

unfoldable pub current_grounds : State → AgreementId → Validation → Result Error (Unit {0})
current_grounds s id v = do
  current_agreement s id
  deps ← agreement_dependencies s id
  dependencies_valid deps v.grounds
