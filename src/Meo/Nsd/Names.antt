-- ===== src/Meo/Nsd/Names.antt =====
-- db/meo/ns_db.py: the name of an NSD that is not deleted.
use mathlib.Core.List.{Memᴰ}
use apmec.Prelude.{ℕ, String, ◌≡◌, refl, Bool, true, some, List, [], ◌∷◌, ◌++◌, eq_iff, any, arith}
use apmec.Errors.{ok, err, db_duplicate_entry, duplicate_entity}
use apmec.Exec.{◌>>=◌}
use apmec.Db.{Db, Env, Context, Nsd, datetime_min}
use apmec.Session.{get_tenant_id_for_create, query, transaction, generate_uuid, utcnow, has_clash}
use apmec.Meo.NsRow.{nsd_clashes, flush_nsds}
use apmec.Meo.Nsd.{NsdRequest, nsd_row, insert_nsd, create_nsd}

module _ {R : Type 0} (clashes : R → R → Bool) where
  any-last : (p : R → Bool) (rows : List R) (r : R) → p r ≡ true → any p (rows ++ (r ∷ [])) ≡ true
  any-last p [] r h = ground arith
  any-last p (x ∷ rows) r h = ground (arith, any-last p rows r h)

  has_clash-last :
      (rows : List R) (x new : R)
      → Memᴰ x rows
      → clashes x new ≡ true
      → has_clash clashes (rows ++ (new ∷ [])) ≡ true
  has_clash-last [] x new m h = elim m [ ]
  has_clash-last (y ∷ rows) x new (Memᴰ.head e) h =
      ground (arith, any-last (clashes y) rows new (rw e at h))
  has_clash-last (y ∷ rows) x new (Memᴰ.tail m) h = ground (arith, has_clash-last rows x new m h)

same_name :
    (r : Nsd) (nsd : NsdRequest) (tenant_id nsd_id : String) (now : ℕ)
    → r.tenant_id ≡ tenant_id
    → r.name ≡ nsd.name
    → r.deleted_at ≡ some datetime_min
    → nsd_clashes r (nsd_row nsd nsd_id tenant_id now) ≡ true
same_name r nsd tenant_id nsd_id now p q live =
    rw live (ground (arith, eq_iff r.tenant_id tenant_id, eq_iff r.name nsd.name))

insert-clash :
    (env : Env) (tenant_id : String) (nsd : NsdRequest) (s : Db) (r : Nsd)
    → Memᴰ r s.nsds
    → r.tenant_id ≡ tenant_id
    → r.name ≡ nsd.name
    → r.deleted_at ≡ some datetime_min
    → (insert_nsd env tenant_id nsd s).0 ≡ err db_duplicate_entry
unfolding insert_nsd flush_nsds query generate_uuid utcnow ◌>>=◌
insert-clash env tenant_id nsd s r m p q live =
    rw
      (has_clash-last nsd_clashes s.nsds r
        (nsd_row nsd (env.generate_uuid s.uuids) tenant_id (env.utcnow s.ticks)) m
        (same_name r nsd tenant_id (env.generate_uuid s.uuids) (env.utcnow s.ticks) p q live))
      refl

-- `create_nsd` for a tenant that has an NSD of that name which is not softly deleted raises
-- DuplicateEntity and leaves every table as it was.
pub create_nsd-duplicate :
    (env : Env) (context : Context) (nsd : NsdRequest) (s : Db) (r : Nsd) (tenant_id : String)
    → get_tenant_id_for_create context nsd.tenant_id ≡ ok tenant_id
    → Memᴰ r s.nsds
    → r.tenant_id ≡ tenant_id
    → r.name ≡ nsd.name
    → r.deleted_at ≡ some datetime_min
    → ((create_nsd env context nsd s).0 ≡ err (duplicate_entity "nsd"))
      × ((create_nsd env context nsd s).1.tables ≡ s.tables)
unfolding create_nsd transaction ◌>>=◌
create_nsd-duplicate env context nsd s r tenant_id for_tenant m p q live =
    rw (for_tenant, insert-clash env tenant_id nsd s r m p q live) (refl, refl)
