-- ===== src/Registry/Tests.antt =====
-- Runs and instances for integrations/id_registry.py.
use unlearning.Prelude.{
  ◌≡◌, refl, none, some, if◌then◌else◌, Str, ok, raise, id_mapping_error, unknown_id,
}
use unlearning.Prelude.Dict.{get, put, remove}
use unlearning.Prelude.Text.{codes, strip, lstrip, rstrip, is_space}
use unlearning.Registry.Names.{norm_collection, norm_external}
use unlearning.Registry.Ops.{
  Registry, ResolvedId, empty, ensured, ensure_collection, label_of, bind_label, register_new,
  register_existing, register_in, register, resolve, del_forward, del_reverse, unbind, drop,
}
use unlearning.Registry.Sound.{IsSound, empty-IsSound, register-IsSound}
use unlearning.Registry.Effects.{at_key, drop-resolve, register-resolve}

unfoldable pub program : Unit {0}
unfolding get put remove strip lstrip rstrip is_space norm_collection norm_external ensured
    ensure_collection bind_label register_new register_existing register_in register resolve
    del_forward del_reverse unbind drop
program = tt

abbrev pub docs : Str
docs = codes "docs"

abbrev pub alice : Str
alice = codes "alice"

abbrev bob : Str
bob = codes "bob"

-- The name is normalised: a blank on either side changes nothing.
abbrev with_alice : Registry
with_alice = (register docs (codes " alice ") none empty).1

abbrev without_alice : Registry
without_alice = (drop docs alice with_alice).1

abbrev alice_id : ResolvedId
alice_id = record { collection = docs; external_id = alice; label = 0 }

registered_alice : register docs (codes " alice ") none empty ≡ (ok 0, with_alice)
unfolding program
registered_alice = refl

resolved_alice : resolve docs alice with_alice ≡ ok alice_id
unfolding program
resolved_alice = refl

with_alice-IsSound : IsSound with_alice
with_alice-IsSound = register-IsSound docs (codes " alice ") none empty empty-IsSound

drop-resolve_example :
    (r' : Registry) × (drop docs alice with_alice ≡ (ok 0, r'))
    × IsSound r'
    × (resolve docs alice r' ≡ raise (id_mapping_error (unknown_id alice docs)))
    × ((c e : Str)
        → label_of r' c e ≡ (if at_key docs alice c e then none else label_of with_alice c e))
drop-resolve_example =
    drop-resolve docs alice with_alice {id = alice_id} with_alice-IsSound resolved_alice

register-resolve_example :
    (id : ResolvedId) × (id.label ≡ 0)
    × (resolve docs (codes " alice ") with_alice ≡ ok id)
    × ((c e : Str)
        → label_of with_alice c e
          ≡ (if at_key id.collection id.external_id c e then some 0 else label_of empty c e))
register-resolve_example = register-resolve docs (codes " alice ") none empty registered_alice

normal_docs : norm_collection docs ≡ ok docs
unfolding program
normal_docs = refl

normal_bob : norm_external bob ≡ ok bob
unfolding program
normal_bob = refl

alice_bound : label_of with_alice docs alice ≡ some 0
unfolding program
alice_bound = refl

bob_free : label_of without_alice docs bob ≡ none
unfolding program
bob_free = refl
