-- ===== src/Party/Calls.antt =====
-- The calls of the services of party.service.ts, run one after the other in an environment that works
-- on the same tables.
use besterp.Prelude.{List, [], ◌∷◌}
use besterp.Value.{Value}
use besterp.Run.{World, Run, done, throws}
use besterp.Support.{Support}
use besterp.Platform.{Platform}
use besterp.Party.Draft.{CreatePartyInput}
use besterp.Party.Create.{create_party, get_party}
use besterp.Party.Search.Filters.{SearchPartiesInput}
use besterp.Party.Search.{search_parties}
use besterp.Party.Roles.{AddPartyRoleInput, add_party_role}
use besterp.Party.Contacts.{AddContactMechanismInput, add_contact_mechanism}

pub data Call : Type 0 where
  creates : CreatePartyInput → Call
  gets : Value → Value → Call
  searches : SearchPartiesInput → Call
  adds_role : AddPartyRoleInput → Call
  adds_contact : AddContactMechanismInput → Call

-- The world in which a call ended, whether it returned or threw.
abbrev pub last_world : {A : Type 0} → Run A → World
last_world (done a w) = w
last_world (throws e w) = w

module _ (lib : Support) (env : Platform) where
  unfoldable pub call : Call → World → World
  unfolding create_party get_party search_parties add_party_role add_contact_mechanism
  call (creates i) w = last_world (create_party lib env i w)
  call (gets tenant id) w = last_world (get_party lib env tenant id w)
  call (searches i) w = last_world (search_parties lib env i w)
  call (adds_role i) w = last_world (add_party_role lib env i w)
  call (adds_contact i) w = last_world (add_contact_mechanism lib env i w)

  unfoldable pub calls : List Call → World → World
  calls [] w = w
  calls (c ∷ cs) w = calls cs (call c w)
