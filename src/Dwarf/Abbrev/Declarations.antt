-- ===== src/Dwarf/Abbrev/Declarations.antt =====
-- The declarations of an abbreviation table, as ParseAbbrevTable of src/dwarf.cpp reads them.
use building_a_debugger.Common.{
  ℕ, suc, ◌+◌, ◌<◌, ◌≤◌, ◌≡◌, false, not, List, [], ◌∷◌, arith, ◌==◌, length, length-append, All,
}
use building_a_debugger.Dwarf.Leb.{mark}
use building_a_debugger.Dwarf.Abbrev.{Abbrev, AbbrevTable, emplace}
use building_a_debugger.Dwarf.Abbrev.Table.{
  Leb, value, IsLeb, write_leb, length-mark, Spec, none_leb, write_specs, IsSpec, specs_of,
}

-- A declaration without its code: the tag, the byte of the children flag and the attributes.
pub record Body : Type 0 where
  pub tag : Leb
  pub flag : ℕ
  pub specs : List Spec

abbrev pub write_body : Body → List ℕ → List ℕ
write_body d rest = write_leb d.tag (d.flag ∷ write_specs d.specs rest)

abbrev pub IsBody : Body → Type 0
IsBody d = IsLeb d.tag × All IsSpec d.specs

abbrev pub Decl : Type 0
Decl = Leb × Body

abbrev pub IsDecl : Decl → Type 0
IsDecl (code, d) = IsLeb code × (value code == 0 ≡ false) × IsBody d

abbrev pub write_decls : List Decl → List ℕ → List ℕ
write_decls [] rest = write_leb none_leb rest
write_decls ((code, d) ∷ ds) rest = write_leb code (write_body d (write_decls ds rest))

abbrev pub abbrev_of : ℕ → Body → Abbrev
abbrev_of code d = record {
  code = code;
  tag = value d.tag;
  has_children = not (d.flag == 0);
  attr_specs = specs_of d.specs;
}

-- The declarations in their order: the first of a code stays.
abbrev pub table_of : AbbrevTable → List Decl → AbbrevTable
table_of table [] = table
table_of table ((code, d) ∷ ds) =
    table_of (emplace (value code) (abbrev_of (value code) d) table) ds

length-write_leb :
    (n : Leb) (rest : List ℕ) → length (write_leb n rest) ≡ suc (length n.others) + length rest
length-write_leb n rest =
    omega (arith, length-append (mark n.first n.others) rest, length-mark n.first n.others)

pub specs_fit :
    (specs : List Spec) (rest : List ℕ)
    → length specs + length rest ≤ length (write_specs specs rest)
specs_fit [] rest = omega arith
specs_fit (a ∷ specs) rest = omega (
  arith,
  specs_fit specs rest,
  length-write_leb a.form (write_specs specs rest),
  length-write_leb a.attr (write_leb a.form (write_specs specs rest)),
)

pub decls_fit : (ds : List Decl) (rest : List ℕ) → length ds < length (write_decls ds rest)
decls_fit [] rest = omega arith
decls_fit ((code, d) ∷ ds) rest = omega (
  arith,
  decls_fit ds rest,
  specs_fit d.specs (write_decls ds rest),
  length-write_leb d.tag (d.flag ∷ write_specs d.specs (write_decls ds rest)),
  length-write_leb code (write_body d (write_decls ds rest)),
)
