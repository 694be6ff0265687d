-- ===== src/Activity/Names.antt =====
-- The names of an activity's attributes and of its statuses
-- (py-utils/src/utils/activity_tracker/const.py).
use cortx_utils.Base.{Text, codes}

abbrev pub id_key : Text
id_key = codes "id"

abbrev pub name_key : Text
name_key = codes "name"

abbrev pub resource_path_key : Text
resource_path_key = codes "resource_path"

abbrev pub description_key : Text
description_key = codes "description"

abbrev pub pct_progress_key : Text
pct_progress_key = codes "pct_progress"

abbrev pub status_key : Text
status_key = codes "status"

abbrev pub status_desc_key : Text
status_desc_key = codes "status_description"

abbrev pub created_time_key : Text
created_time_key = codes "created_time"

abbrev pub updated_time_key : Text
updated_time_key = codes "updated_time"

abbrev pub rc_key : Text
rc_key = codes "rc"

abbrev pub new : Text
new = codes "NEW"

abbrev pub in_progress : Text
in_progress = codes "IN_PROGRESS"

abbrev pub completed : Text
completed = codes "COMPLETED"

abbrev pub suspended : Text
suspended = codes "SUSPENDED"

abbrev pub created_desc : Text
created_desc = codes "An activity has been created"
