-- ===== src/Agent/Containers.antt =====
-- internal/agent/docker/images.go: the settings of the container of an instance. The path of the data
-- directory is made absolute in `cwd`. Of an image, what the program
-- does not read is left out.
pub mod Memory
mod Tests
use craft_stack.Prelude.{
  ℕ, zero, suc, ◌+◌, ◌-◌, ◌*◌, ◌/◌, ◌%◌, ◌^◌, List, [], ◌∷◌, ◌++◌, Text, codes, Bool, true, false,
  not, ◌&&◌, ◌||◌, Option, none, some, ◌==◌, ltb, leb, same, map, take, length, if◌then◌else◌,
}
use craft_stack.Prelude.Int.{ℤ, pos, negsuc, pos_part, neg_part, ltb_ℤ}
use craft_stack.Prelude.Dict.{Dict, get, put}
use craft_stack.GoText.{has_suffix, contains_byte, trim_space}
use craft_stack.GoText.Format.{scan_int, show_int}
use craft_stack.GoPath.{abs}

pub record ServiceImageConfig : Type 0 where
  pub image : Text
  pub default_port : ℤ
  pub data_dir : Text
  pub env : Dict Text
  pub cmd : List Text

abbrev server_command : List Text
server_command = codes "java" ∷ codes "-jar" ∷ codes "server.jar" ∷ codes "nogui" ∷ []

abbrev kafka_env : Dict Text
kafka_env =
    (codes "KAFKA_NODE_ID", codes "1")
    ∷ (codes "KAFKA_PROCESS_ROLES", codes "broker,controller")
    ∷ (codes "KAFKA_LISTENERS", codes "PLAINTEXT://:9092,CONTROLLER://:9093")
    ∷ (codes "KAFKA_CONTROLLER_QUORUM_VOTERS", codes "1@localhost:9093")
    ∷ (codes "KAFKA_CONTROLLER_LISTENER_NAMES", codes "CONTROLLER")
    ∷ (codes "KAFKA_INTER_BROKER_LISTENER_NAME", codes "PLAINTEXT")
    ∷ (codes "KAFKA_OFFSETS_TOPIC_REPLICATION_FACTOR", codes "1")
    ∷ (codes "KAFKA_TRANSACTION_STATE_LOG_REPLICATION_FACTOR", codes "1")
    ∷ (codes "KAFKA_TRANSACTION_STATE_LOG_MIN_ISR", codes "1")
    ∷ (codes "KAFKA_LOG_DIRS", codes "/var/lib/kafka/data")
    ∷ (codes "CLUSTER_ID", codes "MkU3OEVBNTcwNTJENDM2Qk")
    ∷ []

-- DefaultImages
unfoldable pub default_images : Dict ServiceImageConfig
default_images =
    (
      codes "minecraft",
      record {
        image = codes "eclipse-temurin:21-jre";
        default_port = pos 25565;
        data_dir = codes "/server";
        env = (codes "JAVA_TOOL_OPTIONS", codes "-Xms512M -Xmx1024M") ∷ [];
        cmd = server_command;
      },
    )
    ∷ (
      codes "mysql",
      record {
        image = codes "mysql:8.0";
        default_port = pos 3306;
        data_dir = codes "/var/lib/mysql";
        env = (codes "MYSQL_ROOT_PASSWORD", codes "craftstack") ∷ [];
        cmd = [];
      },
    )
    ∷ (
      codes "postgresql",
      record {
        image = codes "postgres:16";
        default_port = pos 5432;
        data_dir = codes "/var/lib/postgresql/data";
        env = (codes "POSTGRES_PASSWORD", codes "craftstack") ∷ [];
        cmd = [];
      },
    )
    ∷ (
      codes "mongodb",
      record {
        image = codes "mongo:7";
        default_port = pos 27017;
        data_dir = codes "/data/db";
        env = [];
        cmd = [];
      },
    )
    ∷ (
      codes "redis",
      record {
        image = codes "redis:7";
        default_port = pos 6379;
        data_dir = codes "/data";
        env = [];
        cmd = [];
      },
    )
    ∷ (
      codes "kafka",
      record {
        image = codes "apache/kafka:3.7.0";
        default_port = pos 9092;
        data_dir = codes "/var/lib/kafka/data";
        env = kafka_env;
        cmd = [];
      },
    )
    ∷ []

-- JavaVersionImages
abbrev pub java_version_images : Dict Text
java_version_images =
    (codes "17", codes "eclipse-temurin:17-jre")
    ∷ (codes "21", codes "eclipse-temurin:21-jre")
    ∷ (codes "25", codes "eclipse-temurin:25-jre")
    ∷ []

abbrev pub or_image : Text → Option Text → Text
or_image old none = old
or_image old (some image) = image

-- An image without its last tag
unfoldable pub without_tag : Text → Text
without_tag [] = []
without_tag (c ∷ s) =
    let rest = without_tag s in
    if contains_byte s b':' then c ∷ rest else if c == b':' then [] else c ∷ rest

abbrev pub image_for : Text → Text → Text → Text → Text
image_for type version java image =
    if same type (codes "minecraft")
    then (if same java [] then image else or_image image (get java_version_images java))
    else if same version []
    then image
    else without_tag image ++ b':' ∷ version

abbrev pub with_image : Text → Text → Text → Option ServiceImageConfig → Option ServiceImageConfig
with_image type version java none = none
with_image type version java (some c) =
    some (record c { image = image_for type version java c.image })

-- GetImageConfig
unfoldable pub get_image_config : Text → Text → Text → Option ServiceImageConfig
unfolding default_images without_tag
get_image_config type version java = with_image type version java (get default_images type)

-- ContainerConfig
pub record ContainerConfig : Type 0 where
  pub name : Text
  pub image : Text
  pub host_port : ℤ
  pub container_port : ℤ
  pub host_dir : Text
  pub container_dir : Text
  pub env : Dict Text
  pub cmd : List Text
  pub restart_mode : Text
  pub memory : Text
  pub cpus : Text
  pub work_dir : Text
  pub network : Text
  pub dns : List Text

-- The loop over the overrides
unfoldable pub put_all : Dict Text → Dict Text → Dict Text
put_all [] env = env
put_all ((k, v) ∷ kvs) env = put_all kvs (put env k v)

abbrev pub is_zero : ℤ → Bool
is_zero n = pos_part n == 0 && neg_part n == 0

abbrev pub container_for :
    Text
    → Text
    → Text
    → ℤ
    → Text
    → Dict Text
    → Text
    → Text
    → Text
    → ServiceImageConfig
    → ContainerConfig
container_for cwd name type port dir overrides memory cpus network c = record {
  name = codes "craftstack-" ++ name;
  image = c.image;
  host_port = if is_zero port then c.default_port else port;
  container_port = c.default_port;
  host_dir = abs cwd dir;
  container_dir = c.data_dir;
  env = put_all overrides c.env;
  cmd = if same type (codes "minecraft") then c.cmd else [];
  restart_mode = codes "unless-stopped";
  memory = memory;
  cpus = cpus;
  work_dir = if same type (codes "minecraft") then c.data_dir else [];
  network = if same network [] then codes "craftstack-default" else network;
  dns = [];
}

-- BuildContainerConfig
unfoldable pub build_container_config :
    Text
    → Text
    → Text
    → Text
    → ℤ
    → Text
    → Dict Text
    → Text
    → Text
    → Text
    → Text
    → Option ContainerConfig
unfolding get_image_config put_all
build_container_config cwd name type version port dir overrides memory cpus java network =
    elim (get_image_config type version java) [
      | none ↦ none
      | some c ↦ some (container_for cwd name type port dir overrides memory cpus network c)
    ]
