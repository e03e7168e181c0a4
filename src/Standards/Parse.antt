-- ===== src/Standards/Parse.antt =====
-- `Parse` and `rejectNullEntries` of internal/standards/standards.go. What gopkg.in/yaml.v3 makes of the
-- file's bytes is a parameter, `Yaml`: the two strict decodes, and the node tree.
use semdev.Base.{
  ℕ, ◌+◌, ◌*◌, Bool, not, ◌||◌, List, [], ◌∷◌, ◌++◌, Option, none, some, ltb, if◌then◌else◌, length,
  Text, codes, same, text_le, join, ℤ, is_nat, Result, ok, err, ◌>>=◌, ◌>>◌, guard,
}
use semdev.Standards.Decl.{
  Standard, Check, YamlStandard, YamlCheck, DeclError, validate_standard, validate_check,
}

abbrev pub max_file_bytes : ℕ
max_file_bytes = 256 * 1024

abbrev pub max_standards_per_file : ℕ
max_standards_per_file = 100

abbrev pub max_checks_per_file : ℕ
max_checks_per_file = 50

abbrev pub file_version : ℕ
file_version = 1

abbrev pub Bytes : Type 0
Bytes = List ℕ

pub record YamlFile : Type 0 where
  pub version : ℤ
  pub standards : List YamlStandard
  pub checks : List YamlCheck

pub data Kind : Type 0 where
  document sequence mapping scalar alias_node : Kind

-- `yaml.Node`; a sequence's items and a mapping's keys and values are its content.
mutual
  pub data Node : Type 0 where
    node : Kind → Text → Text → ℕ → Nodes → Node

  pub data Nodes : Type 0 where
    nil : Nodes
    cons : Node → Nodes → Nodes

pub data Decoded : Type 0 where
  end_of_file malformed : Decoded
  decoded : YamlFile → Decoded

-- `decode` is the first strict decode, `at_end` says that the second one meets the end of the input,
-- and `root` is the document's root node, if the bytes have one.
pub record Yaml : Type 0 where
  pub decode : Bytes → Decoded
  pub at_end : Bytes → Bool
  pub root : Bytes → Option Node

pub data ParseError : Type 0 where
  too_large : ℕ → ParseError
  empty_file yaml_error several_documents : ParseError
  null_entry : Text → ℕ → ℕ → ParseError
  wrong_version : ℤ → ParseError
  too_many_standards too_many_checks : ℕ → ParseError
  declared : DeclError → ParseError
  aliased : Text → Text → ParseError

pub record File : Type 0 where
  pub standards : List Standard
  pub checks : List Check

-- The first null item of a sequence, with its place in it and its line.
unfoldable pub null_item : ℕ → Nodes → Option (ℕ × ℕ)
null_item n nil = none
null_item n (cons (node kind tag value line content) items) =
    if same tag (codes "!!null") then some (n, line) else null_item (n + 1) items

abbrev named_list : Text → Bool
named_list key = same key (codes "standards") || same key (codes "checks")

-- The items of a key's value that the pass looks at.
unfoldable pub null_of : Text → Node → Result ParseError (Unit {0})
unfolding null_item
null_of key (node sequence tag value line content) =
    elim (if named_list key then null_item 0 content else none) [
      | none ↦ ok tt
      | some (n, at) ↦ err (null_entry key n at)
    ]
null_of key (node _ tag value line content) = ok tt

-- The loop over the keys and values of the root, two at a time.
unfoldable pub null_entries : Nodes → Result ParseError (Unit {0})
null_entries (cons (node kind tag key line content) (cons val more)) = do
  null_of key val
  null_entries more
null_entries _ = ok tt

unfoldable pub reject_null_entries : Option Node → Result ParseError (Unit {0})
unfolding null_entries null_of
reject_null_entries (some (node mapping tag value line content)) = null_entries content
reject_null_entries _ = ok tt

-- A failed declaration as a failed parse.
abbrev pub declare {ℓ} : {A : Type ℓ} → Result DeclError A → Result ParseError A
declare (ok a) = ok a
declare (err e) = err (declared e)

unfoldable pub insert_sorted : Text → List Text → List Text
unfolding text_le
insert_sorted t [] = t ∷ []
insert_sorted t (u ∷ us) = if text_le t u then t ∷ u ∷ us else u ∷ insert_sorted t us

-- `slices.Sort`, which fixes the result and not the way to it.
unfoldable pub sort : List Text → List Text
unfolding insert_sorted
sort [] = []
sort (t ∷ ts) = insert_sorted t (sort ts)

unfoldable pub identity_key : Standard → Text
unfolding sort join
identity_key s = s.text ++ (0x1f ∷ join (0x1e ∷ []) (sort s.roles))

-- `seenIdentity[key]`
unfoldable pub prior_id : List Standard → Text → Option Text
prior_id [] key = none
prior_id (s ∷ ss) key = if same (identity_key s) key then some s.id else prior_id ss key

abbrev pub reject_alias : Option Text → Text → Result ParseError (Unit {0})
reject_alias none id = ok tt
reject_alias (some prior) id = err (aliased prior id)

abbrev pub ids : List Standard → List Text
ids [] = []
ids (s ∷ ss) = s.id ∷ ids ss

abbrev pub names : List Check → List Text
names [] = []
names (c ∷ cs) = c.name ∷ names cs

-- The loop over the declared standards. `seen` holds those accepted so far, the last one first: the
-- keys of `seenIDs` and of `seenIdentity` are theirs.
unfoldable pub parse_standards :
    ℕ → List Standard → List YamlStandard → Result ParseError (List Standard)
parse_standards i seen [] = ok []
parse_standards i seen (raw ∷ raws) = do
  std ← declare (validate_standard i raw (ids seen))
  reject_alias (prior_id seen (identity_key std)) std.id
  rest ← parse_standards (i + 1) (std ∷ seen) raws
  ok (std ∷ rest)

unfoldable pub parse_checks : ℕ → List Check → List YamlCheck → Result ParseError (List Check)
parse_checks i seen [] = ok []
parse_checks i seen (raw ∷ raws) = do
  chk ← declare (validate_check i raw (names seen))
  rest ← parse_checks (i + 1) (chk ∷ seen) raws
  ok (chk ∷ rest)

abbrev pub from_decoded : Decoded → Result ParseError YamlFile
from_decoded end_of_file = err empty_file
from_decoded malformed = err yaml_error
from_decoded (decoded raw) = ok raw

unfoldable pub parse_raw : YamlFile → Result ParseError File
parse_raw raw = do
  guard (is_nat raw.version file_version) (wrong_version raw.version)
  guard (not (ltb max_standards_per_file (length raw.standards)))
      (too_many_standards (length raw.standards))
  standards ← parse_standards 0 [] raw.standards
  guard (not (ltb max_checks_per_file (length raw.checks))) (too_many_checks (length raw.checks))
  checks ← parse_checks 0 [] raw.checks
  ok (record { standards = standards; checks = checks })

unfoldable pub parse : Yaml → Bytes → Result ParseError File
parse yaml bytes = do
  guard (not (ltb max_file_bytes (length bytes))) (too_large (length bytes))
  raw ← from_decoded (yaml.decode bytes)
  guard (yaml.at_end bytes) several_documents
  reject_null_entries (yaml.root bytes)
  parse_raw raw
