-- ===== src/Package/BlockTypes.antt =====
-- apis/pkg/v1alpha1/block_types.go: the kinds of block and their names.
use kform.Shared.{Str, arith, eq_iff, if◌then◌else◌, list_beq, refl, str, str_eq, ◌==◌, ◌≡◌, ◌≢◌}

pub data BlockType : Type 0 where
  unknown : BlockType
  backend : BlockType
  required_providers : BlockType
  provider : BlockType
  package_block : BlockType
  input : BlockType
  output : BlockType
  local : BlockType
  resource : BlockType
  data_block : BlockType
  list_block : BlockType
  root_block : BlockType

-- `String`
unfoldable pub type_name : BlockType → Str
type_name unknown = str "unknown"
type_name backend = str "backend"
type_name required_providers = str "requiredProviders"
type_name provider = str "provider"
type_name package_block = str "package"
type_name input = str "input"
type_name output = str "output"
type_name local = str "local"
type_name resource = str "resource"
type_name data_block = str "data"
type_name list_block = str "list"
type_name root_block = str "root"

unfoldable pub get_block_type : Str → BlockType
get_block_type n =
    if n == str "backend"
    then backend
    else if n == str "requiredProviders"
    then required_providers
    else if n == str "provider"
    then provider
    else if n == str "package"
    then package_block
    else if n == str "input"
    then input
    else if n == str "output"
    then output
    else if n == str "local"
    then local
    else if n == str "resource"
    then resource
    else if n == str "data"
    then data_block
    else if n == str "list"
    then list_block
    else if n == str "root"
    then root_block
    else unknown

get_block_type-type_name : (t : BlockType) → get_block_type (type_name t) ≡ t
unfolding get_block_type type_name list_beq
get_block_type-type_name unknown = refl
get_block_type-type_name backend = refl
get_block_type-type_name required_providers = refl
get_block_type-type_name provider = refl
get_block_type-type_name package_block = refl
get_block_type-type_name input = refl
get_block_type-type_name output = refl
get_block_type-type_name local = refl
get_block_type-type_name resource = refl
get_block_type-type_name data_block = refl
get_block_type-type_name list_block = refl
get_block_type-type_name root_block = refl

-- A text that is read as a known kind is the name of that kind.
type_name-get_block_type :
    (n : Str) (t : BlockType) → get_block_type n ≡ t → t ≢ unknown → type_name t ≡ n
unfolding get_block_type type_name
type_name-get_block_type n t e known = ground (
  arith,
  eq_iff n (str "backend"),
  eq_iff n (str "requiredProviders"),
  eq_iff n (str "provider"),
  eq_iff n (str "package"),
  eq_iff n (str "input"),
  eq_iff n (str "output"),
  eq_iff n (str "local"),
  eq_iff n (str "resource"),
  eq_iff n (str "data"),
  eq_iff n (str "list"),
  eq_iff n (str "root"),
)

-- Every kind is read back from its name, and a text is read as a known kind only if it is that
-- kind's name.
pub block_type_names :
    ((t : BlockType) → get_block_type (type_name t) ≡ t)
    × ((n : Str) (t : BlockType) → get_block_type n ≡ t → t ≢ unknown → type_name t ≡ n)
block_type_names = (get_block_type-type_name, type_name-get_block_type)
