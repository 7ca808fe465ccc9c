-- ===== src/Tests/Formats.antt =====
-- Names, headers, numbers and log lines at concrete texts.
use landmark_api.Common.{String, ◌≡◌, ◌≤◌, ◌↔◌, arith, refl, none, some, [], ◌∷◌}
use landmark_api.Common.Int.{pos, negsuc, page_offset}
use landmark_api.Common.Words.{trim_space, fields}
use landmark_api.Landmarks.Params.{checked_atoi}
use landmark_api.Accounts.{bearer_token}
use landmark_api.Media.{extension, stem, generate_unique_filename}
use landmark_api.Logs.{create_request_summary}

last_extension : extension "holiday/photo.tar.gz" ≡ ".gz"
unfolding extension
last_extension = refl

dot_of_a_folder : stem "holiday.24/photo" ≡ "holiday.24/photo"
unfolding stem
dot_of_a_folder = refl

unique_name :
    generate_unique_filename "20241115100000" "0f8fad5b" "bridge.jpg"
    ≡ "bridge_20241115100000_0f8fad5b.jpg"
unfolding generate_unique_filename
unique_name = refl

bearer : bearer_token "Bearer abc" ≡ "abc"
unfolding bearer_token
bearer = refl

bare_bearer : bearer_token "Bearer " ≡ "Bearer "
unfolding bearer_token
bare_bearer = refl

words : fields "  Old   Bridge " ≡ "Old" ∷ "Bridge" ∷ []
unfolding fields
words = refl

trimmed : trim_space "  Old Bridge " ≡ "Old Bridge"
unfolding trim_space
trimmed = refl

number_out_of_range : checked_atoi "9223372036854775808" ≡ none
unfolding checked_atoi
number_out_of_range = refl

second_page : page_offset (pos 2) (pos 20) ≡ pos 20
unfolding page_offset
second_page = refl

-- A page number that is too large wraps around.
wrapped_page : page_offset (pos 9223372036854775807) (pos 2) ≡ negsuc 3
unfolding page_offset
wrapped_page = refl

country_summary :
    create_request_summary (λ n. "7") 2 0 "/api/v1/landmarks/country/Bosnia"
    ≡ "Explored 7 landmarks across the beautiful country of Bosnia"
unfolding create_request_summary landmark_api.Common.Text.split
country_summary = refl
