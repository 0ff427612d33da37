-- ===== src/Agent/Containers/Tests.antt =====
-- Settings of containers.
use craft_stack.Prelude.{◌≡◌, refl, [], codes, same}
use craft_stack.GoText.{has_suffix, contains_byte, trim_space, atoi}
use craft_stack.GoText.Format.{scan_int, skip_blanks, leading_digits, show_int, digits}
use craft_stack.Agent.Containers.{without_tag}
use craft_stack.Agent.Containers.Memory.{compute_docker_memory}

memories :
    (compute_docker_memory (codes "1024M") ≡ codes "1536M")
    × (compute_docker_memory (codes " 2g ") ≡ codes "3G")
    × (compute_docker_memory (codes "1G") ≡ codes "1536M")
    × (compute_docker_memory (codes "2048m") ≡ codes "3G")
    × (compute_docker_memory (codes "abc") ≡ [])
unfolding compute_docker_memory has_suffix trim_space scan_int skip_blanks leading_digits atoi same
    show_int digits
memories = (refl, refl, refl, refl, refl)

untagged : without_tag (codes "host:5000/kafka:3.7.0") ≡ codes "host:5000/kafka"
unfolding without_tag contains_byte
untagged = refl
