-- ===== src/Masking/Tests.antt =====
-- internal/runner/masking_writer.go: two secrets of which one begins with the other.
use vuhive_cloud.Common.{
  ◌≡◌, refl, List, [], ◌∷◌, Text, codes, Error, ok, err, arith, trim_space, trim_left, trim_right,
  is_space, text_eq_iff,
}
use vuhive_cloud.Secrets.Template.{strip_prefix, has_text}
use vuhive_cloud.Masking.{
  unique_secrets, longest_first, insert_longest, first_match, replace, replace_from,
  new_masking_writer, write, len,
}
use vuhive_cloud.Masking.Replacing.{Masked, passed_on, write_masks}
use vuhive_cloud.Masking.Ordering.{order_immaterial}
use vuhive_cloud.Masking.Chunks.{Clear, keeping, split_secret_shown}

abbrev values : List Text
values = codes "key" ∷ codes " " ∷ codes "key_2" ∷ codes "key" ∷ []

masks_longest :
    (write keeping (new_masking_writer values) (codes "a key_2 key") []).0
    ≡ codes "a [REDACTED] [REDACTED]"
unfolding write new_masking_writer unique_secrets longest_first insert_longest len replace
    replace_from first_match strip_prefix trim_space trim_left trim_right is_space
masks_longest = refl

write_masks_example :
    Masked values (codes "my key") (passed_on (new_masking_writer values) (codes "my key"))
    × ((write keeping (new_masking_writer values) (codes "my key") []).0
        ≡ (keeping (passed_on (new_masking_writer values) (codes "my key")) []).0)
    × ((keeping (passed_on (new_masking_writer values) (codes "my key")) []).1
          ≡ ok (len (passed_on (new_masking_writer values) (codes "my key")))
        → (write keeping (new_masking_writer values) (codes "my key") []).1
          ≡ ok (len (codes "my key")))
    × ((problem : Error)
        → (keeping (passed_on (new_masking_writer values) (codes "my key")) []).1 ≡ err problem
        → (write keeping (new_masking_writer values) (codes "my key") []).1 ≡ err problem)
write_masks_example = write_masks keeping values (codes "my key") []

abbrev pair : List Text
pair = codes "ab" ∷ codes "xy" ∷ []

abbrev swapped : List Text
swapped = codes "xy" ∷ codes "ab" ∷ []

same_members : (s : Text) → has_text s swapped ≡ has_text s pair
same_members s = ground (arith, text_eq_iff (codes "ab") s, text_eq_iff (codes "xy") s)

order_immaterial_example :
    replace swapped (codes "1ab2xy") ≡ replace (longest_first pair) (codes "1ab2xy")
unfolding len
order_immaterial_example =
    order_immaterial pair swapped (codes "1ab2xy") ((omega arith, tt), (tt, tt)) same_members

Clear-first : Clear (longest_first (unique_secrets [] values)) (codes "my ke")
unfolding unique_secrets longest_first insert_longest len first_match strip_prefix trim_space
    trim_left trim_right is_space
Clear-first = (refl, (refl, (refl, (refl, (refl, tt)))))

Clear-second : Clear (longest_first (unique_secrets [] values)) (codes "y!")
unfolding unique_secrets longest_first insert_longest len first_match strip_prefix trim_space
    trim_left trim_right is_space
Clear-second = (refl, (refl, tt))

split_secret_shown_example :
    (write keeping
      (new_masking_writer values)
      (codes "y!")
      (write keeping (new_masking_writer values) (codes "my ke") []).0).0
    ≡ codes "my key!"
split_secret_shown_example =
    split_secret_shown values (codes "my ke") (codes "y!") Clear-first Clear-second
