-- ===== src/Sdk/Collection.antt =====
-- png-collection-encoder.ts: a palette, the encoded images, and their folders. The names of folders
-- are no integers, so that an object keeps them in the order of insertion.
use theword_monorepo.Prelude.{
  ℕ, String, Bool, true, false, Option, none, some, List, [], ◌∷◌, ◌++◌, map, str_eq, if◌then◌else◌,
}
use theword_monorepo.Prelude.Table.{Table, load, save}
use theword_monorepo.Sdk.Hex.{Text}
use theword_monorepo.Sdk.Image.{Rgba, Colors, new_image, to_rle}

pub record PngImage : Type 0 where
  pub width : ℕ
  pub height : ℕ
  pub rgba_at : ℕ → ℕ → Rgba

pub record Encoder : Type 0 where
  pub colors : Colors
  pub images : Table Text
  pub folders : Table (List String)

-- The palette starts with the transparent colour.
abbrev pub new_encoder : Encoder
new_encoder = record { colors = ([], 0) ∷ []; images = []; folders = [] }

abbrev pub files_of : Option (List String) → List String
files_of none = []
files_of (some names) = names

-- `(folders[folder] ||= []).push(name)`, unless there is no folder or its name is empty.
unfoldable pub add_to_folder : Option String → String → Table (List String) → Table (List String)
add_to_folder none name folders = folders
add_to_folder (some folder) name folders =
    if str_eq folder ""
    then folders
    else save folders folder (files_of (load folders folder) ++ name ∷ [])

-- `none` is the exception of an image without columns.
unfoldable pub encode_image : String → PngImage → Option String → Encoder → Option (Encoder × Text)
encode_image name png folder e =
    elim (to_rle png.rgba_at e.colors (new_image png.width png.height)) [
      | none ↦ none
      | some (colors, image, rle) ↦ some (
        record {
          colors = colors;
          images = save e.images name rle;
          folders = add_to_folder folder name e.folders;
        },
        rle,
      )
    ]

-- `data = none` is an image that is not, or no longer, in the map.
pub record EncodedImage : Type 0 where
  pub filename : String
  pub code : Option Text

unfoldable pub delete : Table Text → String → Table Text
delete [] name = []
delete ((j, rle) ∷ images) name =
    let rest = delete images name in if str_eq j name then rest else (j, rle) ∷ rest

-- The files of one folder, and the images that are left.
unfoldable pub write_files : List String → Table Text → List EncodedImage × Table Text
write_files [] images = ([], images)
write_files (name ∷ names) images =
    let (written, left) = write_files names (delete images name) in
    (record { filename = name; code = load images name } ∷ written, left)

unfoldable pub write_folders :
    Table (List String)
    → Table Text
    → Table (List EncodedImage)
    → Table (List EncodedImage) × Table Text
write_folders [] images result = (result, images)
write_folders ((folder, names) ∷ folders) images result =
    let (written, left) = write_files names images in
    write_folders folders left (save result folder written)

abbrev pub root_entry : String × Text → EncodedImage
root_entry (name, rle) = record { filename = name; code = some rle }

-- Every image that is left goes to `root`.
abbrev pub add_root : Table Text → Table (List EncodedImage) → Table (List EncodedImage)
add_root [] result = result
add_root (image ∷ images) result = save result "root" (map root_entry (image ∷ images))

unfoldable pub format : Bool → Encoder → Table (List EncodedImage)
format flatten e =
    let (result, left) = write_folders (if flatten then [] else e.folders) e.images [] in
    add_root left result

-- `images`: `undefined` if there is none.
abbrev pub get_images : Encoder → Option (List EncodedImage)
get_images e = load (format true e) "root"

-- `data`: the palette and the images by their folders.
abbrev pub get_data : Encoder → List Text × Table (List EncodedImage)
get_data e = (map (λ c. c.0) e.colors, format false e)
