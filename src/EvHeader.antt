-- ===== src/EvHeader.antt =====
-- ev_header/ev_header.go: the names of the headers that events carry.
use goesl.Base.{◌≡◌, refl, List, [], ◌∷◌, Bytes, codes, Option, none, some, same, if◌then◌else◌}
use goesl.Mime.{canonical}

pub data HeaderName : Type 0 where
  core_uuid event_name event_sequence freeswitch_ipv4 event_date_timestamp : HeaderName
  bg_job_uuid bg_job_command bg_job_command_arg unique_id channel_state : HeaderName
  call_direction other_leg_unique_id caller_id_number callee_destination_number : HeaderName
  caller_network_addr dtmf_digit dtmf_source hangup_cause bridge_a_unique_id : HeaderName
  bridge_b_unique_id current_app current_app_data application application_data : HeaderName
  api_command api_command_argument caller_profile_index record_file_path : HeaderName
  media_bug_function media_bug_target sip_from_host sip_to_host sip_call_id : HeaderName
  sip_profile_name sofia_profile_name sip_profile_url sip_req_uri sip_network_ip : HeaderName
  sip_network_port local_media_ip local_media_port rtp_use_codec_string : HeaderName
  rtp_use_codec_name is_outbound originate_early_media remote_media_ip : HeaderName
  remote_media_port dtmf_type switch_r_sdp start_uepoch progress_uepoch : HeaderName
  progress_media_uepoch answer_uepoch bridge_uepoch end_uepoch : HeaderName
  rtp_audio_in_packet_count rtp_audio_in_jitter_packet_count : HeaderName
  rtp_audio_in_jitter_loss_rate rtp_audio_in_quality_percentage : HeaderName
  rtp_audio_out_packet_count : HeaderName

-- The text of each constant, as the file spells it.
abbrev pub text : HeaderName → Bytes
text core_uuid = codes "Core-UUID"
text event_name = codes "Event-Name"
text event_sequence = codes "Event-Sequence"
text freeswitch_ipv4 = codes "FreeSWITCH-IPv4"
text event_date_timestamp = codes "Event-Date-Timestamp"
text bg_job_uuid = codes "Job-Uuid"
text bg_job_command = codes "Job-Command"
text bg_job_command_arg = codes "Job-Command-Arg"
text unique_id = codes "Unique-ID"
text channel_state = codes "Channel-State"
text call_direction = codes "Call-Direction"
text other_leg_unique_id = codes "Other-Leg-Unique-ID"
text caller_id_number = codes "Caller-Caller-ID-Number"
text callee_destination_number = codes "Caller-Destination-Number"
text caller_network_addr = codes "Caller-Network-Addr"
text dtmf_digit = codes "DTMF-Digit"
text dtmf_source = codes "DTMF-Source"
text hangup_cause = codes "Hangup-Cause"
text bridge_a_unique_id = codes "Bridge-A-Unique-ID"
text bridge_b_unique_id = codes "Bridge-B-Unique-ID"
text current_app = codes "variable_current_application"
text current_app_data = codes "variable_current_application_data"
text application = codes "Application"
text application_data = codes "Application-Data"
text api_command = codes "API-Command"
text api_command_argument = codes "API-Command-Argument"
text caller_profile_index = codes "Caller-Profile-Index"
text record_file_path = codes "Record-File-Path"
text media_bug_function = codes "Media-Bug-Function"
text media_bug_target = codes "Media-Bug-Target"
text sip_from_host = codes "variable_sip_from_host"
text sip_to_host = codes "variable_sip_to_host"
text sip_call_id = codes "variable_sip_call_id"
text sip_profile_name = codes "variable_sip_profile_name"
text sofia_profile_name = codes "variable_soofia_profile_name"
text sip_profile_url = codes "variable_sofia_profile_url"
text sip_req_uri = codes "variable_sip_req_uri"
text sip_network_ip = codes "variable_sip_network_ip"
text sip_network_port = codes "variable_sip_network_port"
text local_media_ip = codes "variable_local_media_ip"
text local_media_port = codes "variable_local_media_port"
text rtp_use_codec_string = codes "variable_rtp_use_codec_string"
text rtp_use_codec_name = codes "variable_rtp_use_codec_name"
text is_outbound = codes "vairable_is_outbound"
text originate_early_media = codes "variable_originate_early_media"
text remote_media_ip = codes "variable_remote_media_ip"
text remote_media_port = codes "variable_remote_media_port"
text dtmf_type = codes "variable_dtmf_type"
text switch_r_sdp = codes "variable_switch_r_sdp"
text start_uepoch = codes "variable_start_uepoch"
text progress_uepoch = codes "variable_progress_uepoch"
text progress_media_uepoch = codes "variable_progress_media_uepoch"
text answer_uepoch = codes "variable_answer_uepoch"
text bridge_uepoch = codes "variable_bridge_uepoch"
text end_uepoch = codes "variable_end_uepoch"
text rtp_audio_in_packet_count = codes "variable_rtp_audio_in_packet_count"
text rtp_audio_in_jitter_packet_count = codes "variable_rtp_audio_in_jitter_packet_count"
text rtp_audio_in_jitter_loss_rate = codes "variable_rtp_audio_in_jitter_loss_rate"
text rtp_audio_in_quality_percentage = codes "variable_rtp_audio_in_quality_percentage"
text rtp_audio_out_packet_count = codes "variable_rtp_audio_out_packet_count"

abbrev all_headers : List HeaderName
all_headers =
    core_uuid ∷ event_name ∷ event_sequence ∷ freeswitch_ipv4 ∷ event_date_timestamp ∷ bg_job_uuid
    ∷ bg_job_command ∷ bg_job_command_arg ∷ unique_id ∷ channel_state ∷ call_direction
    ∷ other_leg_unique_id ∷ caller_id_number ∷ callee_destination_number ∷ caller_network_addr
    ∷ dtmf_digit ∷ dtmf_source ∷ hangup_cause ∷ bridge_a_unique_id ∷ bridge_b_unique_id
    ∷ current_app ∷ current_app_data ∷ application ∷ application_data ∷ api_command
    ∷ api_command_argument ∷ caller_profile_index ∷ record_file_path ∷ media_bug_function
    ∷ media_bug_target ∷ sip_from_host ∷ sip_to_host ∷ sip_call_id ∷ sip_profile_name
    ∷ sofia_profile_name ∷ sip_profile_url ∷ sip_req_uri ∷ sip_network_ip ∷ sip_network_port
    ∷ local_media_ip ∷ local_media_port ∷ rtp_use_codec_string ∷ rtp_use_codec_name ∷ is_outbound
    ∷ originate_early_media ∷ remote_media_ip ∷ remote_media_port ∷ dtmf_type ∷ switch_r_sdp
    ∷ start_uepoch ∷ progress_uepoch ∷ progress_media_uepoch ∷ answer_uepoch ∷ bridge_uepoch
    ∷ end_uepoch ∷ rtp_audio_in_packet_count ∷ rtp_audio_in_jitter_packet_count
    ∷ rtp_audio_in_jitter_loss_rate ∷ rtp_audio_in_quality_percentage ∷ rtp_audio_out_packet_count
    ∷ []

find_header : Bytes → List HeaderName → Option HeaderName
find_header k [] = none
find_header k (h ∷ hs) =
    let rest = find_header k hs in if same k (canonical (text h)) then some h else rest

-- The first constant with this canonical key.
pub header_of : Bytes → Option HeaderName
unfolding find_header
header_of k = find_header k all_headers

-- No two constants name the same header: each is told by its canonical key.
pub header_of-canonical : (h : HeaderName) → header_of (canonical (text h)) ≡ some h
unfolding header_of canonical same
header_of-canonical core_uuid = refl
header_of-canonical _ = refl
