-- ===== src/Tests/Names.antt =====
-- Names and tokens.
use lstk.Text.Search.{trim_space, split}
use lstk.Validate.Names.{pod_name_iff, IsPodName}
use lstk.Validate.{
  service_list_run, word_char, service_list_matches, regex_space, pod_name, service_list,
}
use lstk.Prelude.{◌≡◌, refl, ◌↔◌, none, [], ◌∷◌, nat_eq, ok}
use lstk.Text.Basic.{codes, text_eq}

pod_name_iff_example : (pod_name (codes "my-pod_1") ≡ none) ↔ IsPodName (codes "my-pod_1")
pod_name_iff_example = pod_name_iff (codes "my-pod_1")

services_run : service_list (codes " s3 , sqs") ≡ ok (codes "s3" ∷ codes "sqs" ∷ [])
unfolding service_list service_list_matches service_list_run regex_space word_char split trim_space
services_run = refl
