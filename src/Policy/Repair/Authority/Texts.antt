-- ===== src/Policy/Repair/Authority/Texts.antt =====
-- The texts whose digests the documents hold.
use ao_covenant.Base.{String}
use ao_covenant.Json.{object, Fields}
use ao_covenant.Policy.Repair.Canonical.{without, write_architecture_canonical_json}
use ao_covenant.Policy.Repair.Canonical.Ascii.{Printable}
use ao_covenant.Policy.Repair.Authority.{Authority}

-- What the digest of a document is taken of.
abbrev pub Hashed : Fields × String × String → Type 0
Hashed (document, excluded_field, got) =
    Printable (write_architecture_canonical_json (object (without excluded_field document)))
